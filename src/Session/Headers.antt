-- ===== src/Session/Headers.antt =====
-- `Session::read_headers`.
use proxy_verifier.Base.{
  ℕ, zero, suc, ◌+◌, ◌-◌, Bytes, [], ◌∷◌, ◌++◌, Option, none, some, ltb, length, drop,
  if◌then◌else◌,
}
use proxy_verifier.Rules.Search.{find_text}
use proxy_verifier.Session.Errata.{Rv, error, is_ok}
use proxy_verifier.Session.Run.{Run, returned, blocked, unfinished}
use proxy_verifier.Session.Socket.{Session, Received, read}

-- `HTTP_EOH`
abbrev pub http_eoh : Bytes
http_eoh = b'\r' ∷ b'\n' ∷ b'\r' ∷ b'\n' ∷ []

-- The number, or -1, the session and the contents of the buffer behind the call.
abbrev pub HeadersRead : Type 0
HeadersRead = Rv (Option ℕ) × Session × Bytes

-- Where the search for the end of the header starts.
abbrev pub search_start : Bytes → ℕ
search_start w =
    (if ltb (length w) (length http_eoh) then length http_eoh else length w) - length http_eoh

-- `commit` of a count; -1 is left to the buffer.
abbrev pub commit : (Bytes → Bytes) → Bytes → Received → Bytes
commit commit_error w none = commit_error w
commit commit_error w (some view) = w ++ view

-- The message behind the loop.
unfoldable pub exceeded : Rv (Option ℕ) → Rv (Option ℕ)
exceeded (none, errata) = (none, if is_ok errata then errata ++ (error ∷ []) else errata)
exceeded (some n, errata) = (some n, errata)

-- The session is closed: in the middle of a header, or between two.
unfoldable pub closed_at : Bytes → Session → HeadersRead
unfolding exceeded
closed_at [] s = ((some 0, []), s, [])
closed_at (c ∷ cs) s = (exceeded (none, error ∷ []), s, c ∷ cs)

module _ (capacity : ℕ) (commit_error : Bytes → Bytes) where
  -- What follows a call of `read`; the messages of that call are dropped.
  unfoldable pub after_read :
      Bytes → (Session → Bytes → Run HeadersRead) → Option (Rv Received × Session) → Run HeadersRead
  unfolding closed_at
  after_read w again none = blocked
  after_read w again (some ((out, errata), s)) =
      let w' = commit commit_error w out in
      let start = search_start w in
      if s.is_open
      then (elim (find_text (drop start w') http_eoh) [
        | some offset ↦ returned ((some (start + offset + length http_eoh), []), s, w')
        | none ↦ again s w'
      ])
      else returned (closed_at w s)

  -- `Session::read_headers` from the contents of the buffer on, with a bound on the rounds.
  unfoldable pub read_headers : ℕ → Session → Bytes → Run HeadersRead
  unfolding after_read exceeded
  read_headers zero s w =
      if ltb (length w) capacity then unfinished else returned (exceeded (none, []), s, w)
  read_headers (suc fuel) s w =
      let more = after_read w (read_headers fuel) (read s (capacity - length w)) in
      if ltb (length w) capacity then more else returned (exceeded (none, []), s, w)
