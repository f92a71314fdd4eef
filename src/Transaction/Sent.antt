-- ===== src/Transaction/Sent.antt =====
-- What `write_body` and `write` of a message have sent, and which session they leave, for messages that are not chunked.
use proxy_verifier.Base.{
  ℕ, ◌≤◌, ◌<◌, length, Bytes, Bool, true, false, not, ◌&&◌, ◌||◌, [], ◌∷◌, ◌++◌, Option, none, some,
  ltb, ◌==◌, ◌≡◌, ◌⊎◌, refl, sym, inl, inr, append-nil, take, arith, if◌then◌else◌,
}
use proxy_verifier.Chunk.Codex.{ChunkOps}
use proxy_verifier.Message.Defs.{HttpHeader}
use proxy_verifier.Session.Errata.{Errata, Rv, Severity, diag, is_ok, is_ok-append}
use proxy_verifier.Session.Run.{Run, returned, blocked, unfinished, aborted, out_of_bounds}
use proxy_verifier.Session.Socket.{Session, close, write}
use proxy_verifier.Session.Writing.{Writes, WritesSome, write-Writes}
use proxy_verifier.Transaction.Sending.{
  status_permits, data_of, is_inside, content_of, body_written, is_open_ended, write_chunked,
  write_plain, write_body,
}

-- What came of a body: a front of the text is sent, which has one of the two sizes if there is no
-- error, and the session is closed where that has to show the end.
pub record BodySent (generated : Bytes) (h : HttpHeader) (text : Bytes) (has closes : Bool)
    (s : Session) (n : ℕ) (errata : Errata) (s' : Session) : Type 0 where
  pub front : s'.sent ≡ s.sent ++ take n text
  pub sized :
      has ≡ true → is_ok errata ≡ true → (n ≡ h.content_size) ⊎ (n ≡ h.recorded_content_size)
  pub still_open : s'.is_open ≡ (if closes then false else s.is_open)
  pub same_reads : s'.reads ≡ s.reads
  pub inside : has ≡ true → h.content_size ≤ length (data_of generated h)

-- Whether there is a body to send.
abbrev pub has_body : HttpHeader → Bool
has_body h = (h.is_request || status_permits h) && ltb 0 h.content_size

abbrev pub BodySentIf :
    Bytes → HttpHeader → Bytes → Bool → Bool → Session → Run (Rv ℕ × Session) → Type 0
BodySentIf generated h text has closes s (returned ((n, errata), s')) =
    BodySent generated h text has closes s n errata s'
BodySentIf generated h text has closes s blocked = Unit
BodySentIf generated h text has closes s unfinished = ⊥
BodySentIf generated h text has closes s aborted = ⊥
BodySentIf generated h text has closes s out_of_bounds =
    (has_body h ≡ true) × (length (data_of generated h) < h.content_size)

-- Whether the end of the connection has to tell where the body ends.
abbrev pub closes_behind : HttpHeader → Bool
closes_behind h = if has_body h then is_open_ended h else status_permits h && not h.content_length_p

body_written-sized :
    (h : HttpHeader) (n : ℕ) (errata : Errata) (s : Session)
    → is_ok (body_written h n errata s).0.1 ≡ true
    → (n ≡ h.content_size) ⊎ (n ≡ h.recorded_content_size)
unfolding body_written
body_written-sized h n errata s =
    by_test (n == h.content_size) (n == h.recorded_content_size) refl refl
  where
    by_test :
        (a b : Bool)
        → (n == h.content_size) ≡ a
        → (n == h.recorded_content_size) ≡ b
        → is_ok (if a || b then errata else errata ++ (Severity.error ∷ [])) ≡ true
        → (n ≡ h.content_size) ⊎ (n ≡ h.recorded_content_size)
    by_test true b p q ok = inl (ground (arith, p))
    by_test false true p q ok = inr (ground (arith, q))
    by_test false false p q ok =
        let bad : is_ok (Severity.error ∷ []) ≡ true =
          is_ok-append errata (Severity.error ∷ []) ok in
        ground (arith, bad)

module _ (chunk_ops : ChunkOps) (generated : Bytes) where
  write_plain-BodySent :
      (h : HttpHeader) (s : Session)
      → h.content_size ≤ length (data_of generated h)
      → BodySentIf generated h
          (content_of generated h)
          true
          (is_open_ended h)
          s
          (write_plain chunk_ops generated h s)
  unfolding write_plain body_written close
  write_plain-BodySent h s fits = by_write (write s text) (write-Writes s text)
    where
      text : Bytes
      text = content_of generated h

      by_end :
          (n : ℕ) (errata : Errata) (s' : Session) (b : Bool)
          → Writes s text n errata s'
          → BodySentIf generated h text true b s (
              if b
              then returned (body_written h n (diag ∷ errata ++ (diag ∷ [])) (close s'))
              else returned (body_written h n (diag ∷ errata) s'))
      by_end n errata s' true w = record {
        front = w.sent_front;
        sized = λ has ok. body_written-sized h n (diag ∷ errata ++ (diag ∷ [])) (close s') ok;
        still_open = refl;
        same_reads = w.keeps_reads;
        inside = λ has. fits;
      }
      by_end n errata s' false w = record {
        front = w.sent_front;
        sized = λ has ok. body_written-sized h n (diag ∷ errata) s' ok;
        still_open = w.keeps_open;
        same_reads = w.keeps_reads;
        inside = λ has. fits;
      }

      by_write :
          (o : Option (Rv ℕ × Session))
          → WritesSome s text o
          → BodySentIf generated h text true
              (is_open_ended h)
              s
              (elim o as (λ o'. Run (Rv ℕ × Session)) [
                | none ↦ blocked
                | some ((n, errata), s') ↦
                    if is_open_ended h
                    then returned (body_written h n (diag ∷ errata ++ (diag ∷ [])) (close s'))
                    else returned (body_written h n (diag ∷ errata) s')
              ])
      by_write none w = tt
      by_write (some ((n, errata), s')) w = by_end n errata s' (is_open_ended h) w

  -- For a message that is not chunked, `write_body` ends unless a call of `write` does not come back.
  -- It has sent a front of the body of the message, if it has one, in one of its two sizes unless
  -- there is an error. The session is closed exactly if neither a length nor a coding tells where the
  -- body ends, and the message may have one. It goes out of bounds exactly if the message has a body
  -- and its size is larger than the data, whose front is sent otherwise.
  pub write_body-BodySent :
      (fuel : ℕ) (h : HttpHeader) (s : Session)
      → h.chunked_p ≡ false
      → BodySentIf generated h
          (if has_body h then content_of generated h else [])
          (has_body h)
          (closes_behind h)
          s
          (write_body chunk_ops generated fuel h s)
  unfolding write_body close
  write_body-BodySent fuel h s plain =
      by_test (h.is_request || status_permits h) (ltb 0 h.content_size) h.chunked_p
        (status_permits h) h.content_length_p (is_inside generated h) plain refl refl
    where
      text : Bytes
      text = content_of generated h

      no_body :
          (sp cl : Bool)
          → BodySentIf generated h [] false (sp && not cl) s (
              if sp && not false && not cl
              then returned ((0, diag ∷ diag ∷ []), close s)
              else returned ((0, diag ∷ []), s))
      no_body true true = record {
        front = sym (append-nil s.sent);
        sized = λ has ok. ground (arith, has);
        still_open = refl;
        same_reads = refl;
        inside = λ has. ground (arith, has);
      }
      no_body true false = record {
        front = sym (append-nil s.sent);
        sized = λ has ok. ground (arith, has);
        still_open = refl;
        same_reads = refl;
        inside = λ has. ground (arith, has);
      }
      no_body false true = record {
        front = sym (append-nil s.sent);
        sized = λ has ok. ground (arith, has);
        still_open = refl;
        same_reads = refl;
        inside = λ has. ground (arith, has);
      }
      no_body false false = record {
        front = sym (append-nil s.sent);
        sized = λ has ok. ground (arith, has);
        still_open = refl;
        same_reads = refl;
        inside = λ has. ground (arith, has);
      }

      by_test :
          (m z c sp cl i : Bool)
          → c ≡ false
          → has_body h ≡ (m && z)
          → is_inside generated h ≡ i
          → BodySentIf generated h
              (if m && z then text else [])
              (m && z)
              (if m && z then is_open_ended h else sp && not cl)
              s
              (if m && (z || c)
                then (if not i
                    then out_of_bounds
                    else if c
                    then write_chunked chunk_ops generated fuel h s
                    else write_plain chunk_ops generated h s)
                else if sp && not c && not cl
                then returned ((0, diag ∷ diag ∷ []), close s)
                else returned ((0, diag ∷ []), s))
      by_test m z true sp cl i e has in_p = ground (arith, e)
      by_test true true false sp cl true e has in_p =
          write_plain-BodySent h s (ground (arith, in_p))
      by_test true true false sp cl false e has in_p = (has, ground (arith, in_p))
      by_test true false false sp cl i e has in_p = no_body sp cl
      by_test false true false sp cl i e has in_p = no_body sp cl
      by_test false false false sp cl i e has in_p = no_body sp cl
