-- ===== src/Drain/Length.antt =====
-- A body with a length is drained to that length, or there is an error.
use proxy_verifier.Base.{
  ℕ, zero, suc, ◌+◌, ◌≤◌, ◌<◌, Bytes, Bool, true, false, [], ◌∷◌, ◌++◌, Option, none, some, ltb,
  leb, ◌≡◌, refl, sym, ap, ◌∙◌, inl, inr, Bool-cases, append_assoc, length, length-append, arith,
  if◌then◌else◌,
}
use proxy_verifier.Drain.Body.{Drained, with_notes, length_drained, length_read, drain_length}
use proxy_verifier.Session.Errata.{Errata, Rv, diag, error, is_ok, is_ok-append}
use proxy_verifier.Session.Reading.{
  pending, bytes_read, Reads, ReadsSome, read-Reads, PollsWell, WellRead, read-WellRead,
}
use proxy_verifier.Session.Run.{Run, returned, blocked, unfinished, aborted, out_of_bounds}
use proxy_verifier.Session.Socket.{Session, Received, read}
use proxy_verifier.Url.Parse.{minus}

-- What a drained body has taken from a stream, from `num` bytes on.
pub record Takes (expected num : ℕ) (stream : Bytes) (num' : ℕ) (errata : Errata) (s' : Session)
    : Type 0 where
  pub taken : Bytes
  pub in_order : stream ≡ taken ++ pending s'.reads
  pub counted : num' ≡ num + length taken
  pub complete : is_ok errata ≡ true → num' ≡ expected

abbrev pub LengthDone : ℕ → ℕ → Bytes → Run Drained → Type 0
LengthDone expected num stream (returned ((num', errata), s')) =
    Takes expected num stream num' errata s'
LengthDone expected num stream blocked = Unit
LengthDone expected num stream unfinished = ⊥
LengthDone expected num stream aborted = ⊥
LengthDone expected num stream out_of_bounds = ⊥

pub with_notes-LengthDone :
    (notes : Errata) (expected num : ℕ) (stream : Bytes) (r : Run Drained)
    → LengthDone expected num stream r
    → LengthDone expected num stream (with_notes notes r)
with_notes-LengthDone notes expected num stream (returned ((n, errata), s)) t = record {
  taken = t.taken;
  in_order = t.in_order;
  counted = t.counted;
  complete = λ h. t.complete (is_ok-append notes errata h);
}
with_notes-LengthDone notes expected num stream blocked t = tt
with_notes-LengthDone notes expected num stream unfinished t = t
with_notes-LengthDone notes expected num stream aborted t = t
with_notes-LengthDone notes expected num stream out_of_bounds t = t

-- Some bytes in front of what is taken later.
LengthDone-later :
    (expected num : ℕ) (stream piece rest : Bytes) (r : Run Drained)
    → stream ≡ piece ++ rest
    → LengthDone expected (num + length piece) rest r
    → LengthDone expected num stream r
LengthDone-later expected num stream piece rest (returned ((n, errata), s)) e t = record {
  taken = piece ++ t.taken;
  in_order =
      e ∙ ap (λ v. piece ++ v) t.in_order ∙ sym (append_assoc piece t.taken (pending s.reads));
  counted = omega (arith, t.counted, length-append piece t.taken);
  complete = t.complete;
}
LengthDone-later expected num stream piece rest blocked e t = tt
LengthDone-later expected num stream piece rest unfinished e t = t
LengthDone-later expected num stream piece rest aborted e t = t
LengthDone-later expected num stream piece rest out_of_bounds e t = t

length_drained-Takes :
    (expected num : ℕ) (s : Session)
    → ltb num expected ≡ false
    → LengthDone expected num (pending s.reads) (returned (length_drained expected num s))
unfolding length_drained
length_drained-Takes expected num s enough = record {
  taken = [];
  in_order = refl;
  counted = omega arith;
  complete = λ h. ground arith;
}

length_read-LengthDone :
    (expected num old_size : ℕ) (s : Session) (size : ℕ) (again : ℕ → ℕ → Session → Run Drained)
    (r : Option (Rv Received × Session))
    → ReadsSome s size r
    → WellRead r
    → ((n : ℕ) (s' : Session)
        → 0 < n
        → PollsWell s'
        → LengthDone expected (num + n) (pending s'.reads) (again (num + n) (old_size + n) s'))
    → LengthDone expected num (pending s.reads) (length_read expected num old_size again r)
unfolding length_read length_drained
length_read-LengthDone expected num old_size s size again none reads well on = tt
length_read-LengthDone expected num old_size s size again (some ((out, dropped), s')) reads well
      on =
    by_test s'.is_open refl
  where
    n : ℕ
    n = length (bytes_read out)

    positive :
        (o : Received)
        → Reads s size o s'
        → (o ≡ none → s'.is_open ≡ false)
        → s'.is_open ≡ true
        → 0 < length (bytes_read o)
    positive none h w e = ground (arith, w refl, e)
    positive (some []) h w e = ground (arith, h.empty_closes refl, e)
    positive (some (c ∷ cs)) h w e = omega arith

    by_test :
        (b : Bool)
        → s'.is_open ≡ b
        → LengthDone expected num (pending s.reads) (
            if b
            then again (num + n) (old_size + n) s'
            else returned (
              (num + n, error ∷ (if ltb expected (num + n) then error ∷ diag ∷ [] else diag ∷ [])),
              s',
            ))
    by_test true e =
        LengthDone-later expected num (pending s.reads) (bytes_read out) (pending s'.reads) _
          reads.in_order (on n s' (positive out reads well.0 e) well.1)
    by_test false e = record {
      taken = bytes_read out;
      in_order = reads.in_order;
      counted = refl;
      complete = λ h. ground (arith, h);
    }

pub drain_length-LengthDone :
    (fuel expected buff num stored : ℕ) (s : Session)
    → expected ≤ num + fuel
    → PollsWell s
    → LengthDone expected num (pending s.reads) (drain_length fuel expected buff s num stored)
unfolding drain_length length_drained
drain_length-LengthDone zero expected buff num stored s enough well =
    let stop : ltb num expected ≡ false = ground arith in
    rw stop (length_drained-Takes expected num s stop)
drain_length-LengthDone (suc fuel) expected buff num stored s enough well =
    elim (Bool-cases (ltb num expected)) [
      | inr stop ↦ rw stop (length_drained-Takes expected num s stop)
      | inl on ↦
          let old_size = if leb buff stored then 0 else stored in
          let size = minus buff old_size in
          let inside : ltb buff old_size ≡ false = ground arith in
          rw (on, inside)
            (with_notes-LengthDone (if leb buff stored then diag ∷ [] else []) expected num
              (pending s.reads) _
              (length_read-LengthDone expected num old_size s size
                (λ num' stored' s'. drain_length fuel expected buff s' num' stored') (read s size)
                (read-Reads s size) (read-WellRead s size well)
                (λ n s' more well'.
                  drain_length-LengthDone fuel expected buff (num + n) (old_size + n) s'
                    (omega arith) well')))
    ]
