-- ===== src/Transaction/Whole.antt =====
-- What `Session::write` of a message has sent: the header, then the body.
use proxy_verifier.Base.{
  ℕ, ◌+◌, ◌≤◌, ◌<◌, Bytes, true, false, ◌++◌, Option, some, ◌≡◌, ◌⊎◌, length, take, if◌then◌else◌,
}
use proxy_verifier.Message.Defs.{HttpHeader}
use proxy_verifier.Session.Errata.{Errata, Rv, is_ok}
use proxy_verifier.Session.Run.{Run, returned, blocked, unfinished, aborted, out_of_bounds}
use proxy_verifier.Session.Socket.{Session}
use proxy_verifier.Transaction.Sending.{data_of}
use proxy_verifier.Transaction.Sent.{has_body, closes_behind}

-- The header text, cut to the size of its buffer, and a front of the body.
pub record MessageSent (generated : Bytes) (h : HttpHeader) (text body : Bytes) (s : Session)
    (m : Option ℕ) (s' : Session) : Type 0 where
  pub body_bytes : ℕ
  pub reported : m ≡ some (length text + body_bytes)
  pub in_order : s'.sent ≡ s.sent ++ text ++ take body_bytes body
  pub sized :
      has_body h ≡ true → (body_bytes ≡ h.content_size) ⊎ (body_bytes ≡ h.recorded_content_size)
  pub still_open : s'.is_open ≡ (if closes_behind h then false else s.is_open)
  pub same_reads : s'.reads ≡ s.reads
  pub inside : has_body h ≡ true → h.content_size ≤ length (data_of generated h)

abbrev pub MessageSentIf :
    Bytes → HttpHeader → Bytes → Bytes → Session → Run (Rv (Option ℕ) × Session) → Type 0
MessageSentIf generated h text body s (returned ((m, errata), s')) =
    is_ok errata ≡ true → MessageSent generated h text body s m s'
MessageSentIf generated h text body s blocked = Unit
MessageSentIf generated h text body s unfinished = ⊥
MessageSentIf generated h text body s aborted = ⊥
MessageSentIf generated h text body s out_of_bounds =
    (has_body h ≡ true) × (length (data_of generated h) < h.content_size)
