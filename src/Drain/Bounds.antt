-- ===== src/Drain/Bounds.antt =====
-- A body that fits into the buffer is drained without a byte of what follows it.
use proxy_verifier.Base.{
  ℕ, zero, suc, ◌+◌, ◌^◌, ◌≤◌, ◌<◌, Bool, true, false, [], ◌∷◌, Option, none, some, ltb, leb, ◌≡◌,
  inl, inr, Bool-cases, length, arith, if◌then◌else◌,
}
use proxy_verifier.Drain.Body.{Drained, with_notes, length_drained, length_read, drain_length}
use proxy_verifier.Session.Errata.{Errata, Rv, diag, error}
use proxy_verifier.Session.Reading.{bytes_read, ReadsSome, read-Reads}
use proxy_verifier.Session.Run.{Run, returned, blocked, unfinished, aborted, out_of_bounds}
use proxy_verifier.Session.Socket.{Session, Received, read}
use proxy_verifier.Url.Parse.{minus}

abbrev pub AtMost : ℕ → Run Drained → Type 0
AtMost expected (returned ((num, errata), s)) = num ≤ expected
AtMost expected blocked = Unit
AtMost expected unfinished = Unit
AtMost expected aborted = Unit
AtMost expected out_of_bounds = Unit

with_notes-AtMost :
    (notes : Errata) (expected : ℕ) (r : Run Drained)
    → AtMost expected r
    → AtMost expected (with_notes notes r)
with_notes-AtMost notes expected (returned ((n, errata), s)) h = h
with_notes-AtMost notes expected blocked h = tt
with_notes-AtMost notes expected unfinished h = tt
with_notes-AtMost notes expected aborted h = tt
with_notes-AtMost notes expected out_of_bounds h = tt

length_read-AtMost :
    (expected num : ℕ) (s : Session) (size : ℕ) (again : ℕ → ℕ → Session → Run Drained)
    (r : Option (Rv Received × Session))
    → num + size ≤ expected
    → ReadsSome s size r
    → ((n : ℕ) (s' : Session) → n ≤ size → AtMost expected (again (num + n) (num + n) s'))
    → AtMost expected (length_read expected num num again r)
unfolding length_read length_drained
length_read-AtMost expected num s size again none room reads on = tt
length_read-AtMost expected num s size again (some ((out, dropped), s')) room reads on =
    by_test s'.is_open
  where
    n : ℕ
    n = length (bytes_read out)

    by_test :
        (b : Bool)
        → AtMost expected (
            if b
            then again (num + n) (num + n) s'
            else returned (
              (num + n, error ∷ (if ltb expected (num + n) then error ∷ diag ∷ [] else diag ∷ [])),
              s',
            ))
    by_test true = on n s' reads.fits
    by_test false = omega (arith, reads.fits)

-- From a buffer as large as the expected body, which holds what was drained so far, the loop drains
-- at most the expected bytes: the room for a call of `read` is what is missing, and does not wrap.
pub drain_length-AtMost :
    (fuel expected num : ℕ) (s : Session)
    → expected < 2 ^ 64
    → num ≤ expected
    → AtMost expected (drain_length fuel expected expected s num num)
unfolding drain_length length_drained
drain_length-AtMost zero expected num s small fits = elim (Bool-cases (ltb num expected)) [
  | inr stop ↦ rw stop fits
  | inl on ↦ rw on tt
]
drain_length-AtMost (suc fuel) expected num s small fits = elim (Bool-cases (ltb num expected)) [
  | inr stop ↦ rw stop fits
  | inl on ↦
      let missing : num < expected = ground arith in
      let room : leb expected num ≡ false = ground arith in
      let inside : ltb expected num ≡ false = ground arith in
      rw (on, room, inside)
        (with_notes-AtMost [] expected _ (
          length_read-AtMost expected num s (minus expected num)
            (λ num' stored' s'. drain_length fuel expected expected s' num' stored')
            (read s (minus expected num)) (omega arith) (read-Reads s (minus expected num))
            (λ n s' few. drain_length-AtMost fuel expected (num + n) s' small (omega arith))))
]
