-- ===== src/Session/Filling.antt =====
-- What `read_headers` takes from a socket: the calls of `read` that fill its buffer.
use proxy_verifier.Base.{
  ℕ, zero, suc, ◌+◌, ◌-◌, Bytes, Bool, true, false, [], ◌∷◌, Option, none, some, ltb, ◌≡◌, ◌⊎◌,
  refl, inl, inr, length, drop, if◌then◌else◌,
}
use proxy_verifier.Rules.Search.{find_text}
use proxy_verifier.Session.Errata.{Errata, Rv}
use proxy_verifier.Session.Headers.{
  http_eoh, HeadersRead, search_start, commit, exceeded, closed_at, after_read, read_headers,
}
use proxy_verifier.Session.Run.{Run, returned, blocked, unfinished, aborted, out_of_bounds}
use proxy_verifier.Session.Socket.{Session, Received, read}

module _ (capacity : ℕ) (commit_error : Bytes → Bytes) where
  -- The contents of a buffer that was empty, by the calls of `read` from a session on. What a call
  -- gives on a session that it closes is not kept.
  pub data ReadFrom (s : Session) : Session → Bytes → Type 0 where
    nothing_read : ReadFrom s s []
    read_more :
        {t t' : Session} {w : Bytes} (out : Received) (notes : Errata)
        → ReadFrom s t w
        → read t (capacity - length w) ≡ some ((out, notes), t')
        → t'.is_open ≡ true
        → ReadFrom s t' (commit commit_error w out)
    read_closed :
        {t t' : Session} {w : Bytes} (out : Received) (notes : Errata)
        → ReadFrom s t w
        → read t (capacity - length w) ≡ some ((out, notes), t')
        → t'.is_open ≡ false
        → ReadFrom s t' w

  -- A header that was read up to its end: there is none on a session that is closed with nothing read,
  -- or it ends behind a blank line.
  pub record HeaderRead (s : Session) (n : ℕ) (t : Session) (w : Bytes) : Type 0 where
    pub filled : ReadFrom s t w
    pub ended :
        ((n ≡ 0) × (w ≡ []) × (t.is_open ≡ false))
        ⊎ ((start : ℕ) × (offset : ℕ) × (n ≡ start + offset + 4)
            × (find_text (drop start w) http_eoh ≡ some offset))

  abbrev pub HeaderReadIf : Session → HeadersRead → Type 0
  HeaderReadIf s ((some n, notes), t, w) = HeaderRead s n t w
  HeaderReadIf s ((none, notes), t, w) = Unit

  abbrev pub RunReadIf : Session → Run HeadersRead → Type 0
  RunReadIf s (returned r) = HeaderReadIf s r
  RunReadIf s blocked = Unit
  RunReadIf s unfinished = Unit
  RunReadIf s aborted = Unit
  RunReadIf s out_of_bounds = Unit

  closed_at-HeaderReadIf :
      (s t : Session) (w : Bytes)
      → ReadFrom s t w
      → t.is_open ≡ false
      → HeaderReadIf s (closed_at w t)
  unfolding closed_at exceeded
  closed_at-HeaderReadIf s t [] from shut = record { filled = from; ended = inl (refl, refl, shut) }
  closed_at-HeaderReadIf s t (c ∷ cs) from shut = tt

  after_read-RunReadIf :
      (s t : Session) (w : Bytes) (again : Session → Bytes → Run HeadersRead)
      (r : Option (Rv Received × Session))
      → ReadFrom s t w
      → read t (capacity - length w) ≡ r
      → ((t' : Session) (w' : Bytes) → ReadFrom s t' w' → RunReadIf s (again t' w'))
      → RunReadIf s (after_read capacity commit_error w again r)
  unfolding after_read
  after_read-RunReadIf s t w again none from call on = tt
  after_read-RunReadIf s t w again (some ((out, errata), t')) from call on = by_open t'.is_open refl
    where
      w' : Bytes
      w' = commit commit_error w out

      start : ℕ
      start = search_start w

      by_find :
          (o : Option ℕ)
          → find_text (drop start w') http_eoh ≡ o
          → t'.is_open ≡ true
          → RunReadIf s (elim o as (λ o'. Run HeadersRead) [
            | some offset ↦ returned ((some (start + offset + length http_eoh), []), t', w')
            | none ↦ again t' w'
          ])
      by_find (some offset) found open_p = record {
        filled = read_more out errata from call open_p;
        ended = inr (start, offset, refl, found);
      }
      by_find none found open_p = on t' w' (read_more out errata from call open_p)

      by_open :
          (b : Bool)
          → t'.is_open ≡ b
          → RunReadIf s (
              if b
              then (elim (find_text (drop start w') http_eoh) as (λ o'. Run HeadersRead) [
                | some offset ↦ returned ((some (start + offset + length http_eoh), []), t', w')
                | none ↦ again t' w'
              ])
              else returned (closed_at w t'))
      by_open true open_p = by_find _ refl open_p
      by_open false shut =
          closed_at-HeaderReadIf s t' w (read_closed out errata from call shut) shut

  -- The number that `read_headers` gives is the end of a header that calls of `read` have filled in.
  pub read_headers-RunReadIf :
      (fuel : ℕ) (s t : Session) (w : Bytes)
      → ReadFrom s t w
      → RunReadIf s (read_headers capacity commit_error fuel t w)
  unfolding read_headers exceeded
  read_headers-RunReadIf zero s t w from = by_test (ltb (length w) capacity)
    where
      by_test :
          (b : Bool) → RunReadIf s (if b then unfinished else returned (exceeded (none, []), t, w))
      by_test true = tt
      by_test false = tt
  read_headers-RunReadIf (suc fuel) s t w from = by_test (ltb (length w) capacity) (
      after_read-RunReadIf s t w _ _ from refl
        (λ t' w' from'. read_headers-RunReadIf fuel s t' w' from'))
    where
      more : Run HeadersRead
      more =
          after_read capacity commit_error w (read_headers capacity commit_error fuel)
            (read t (capacity - length w))

      by_test :
          (b : Bool)
          → RunReadIf s more
          → RunReadIf s (if b then more else returned (exceeded (none, []), t, w))
      by_test true on = on
      by_test false on = tt
