-- ===== src/Drain/Buffer.antt =====
-- The buffer of the chunked loop: within its bounds for bodies up to a size, and outside for larger
-- ones.
use proxy_verifier.Base.{
  ℕ, zero, suc, ◌+◌, ◌-◌, ◌≤◌, ◌<◌, Bool, true, false, Option, none, some, ltb, leb, ◌≡◌, refl,
  length, arith, if◌then◌else◌,
}
use proxy_verifier.Chunk.Codex.{ChunkOps, Codex, Result, continue, done, error, Parsed}
use proxy_verifier.Chunk.Turns.{bytes_of}
use proxy_verifier.Drain.Body.{
  Drained, with_notes, with_underrun, parse_read, chunked_drained, chunk_parsed, chunk_read,
  drain_chunked, next_buffer, max_drain_buffer_size, buffer_size,
}
use proxy_verifier.Session.Errata.{Errata, Rv}
use proxy_verifier.Session.Reading.{bytes_read, ReadsSome, read-Reads}
use proxy_verifier.Session.Run.{Run, returned, blocked, unfinished, aborted, out_of_bounds}
use proxy_verifier.Session.Socket.{Session, Received, read}

abbrev pub InBounds : Run Drained → Type 0
InBounds (returned d) = Unit
InBounds blocked = Unit
InBounds unfinished = Unit
InBounds aborted = Unit
InBounds out_of_bounds = ⊥

with_notes-InBounds :
    (notes : Errata) (r : Run Drained) → InBounds r → InBounds (with_notes notes r)
with_notes-InBounds notes (returned ((n, errata), s)) h = tt
with_notes-InBounds notes blocked h = tt
with_notes-InBounds notes unfinished h = tt
with_notes-InBounds notes aborted h = tt
with_notes-InBounds notes out_of_bounds h = h

-- A buffer of at most the largest size stays one, and holds what it is said to hold.
next_buffer_bounds :
    (buff stored : ℕ)
    → buff ≤ max_drain_buffer_size
    → stored ≤ buff
    → ((next_buffer buff stored).1 ≤ (next_buffer buff stored).0)
      × ((next_buffer buff stored).0 ≤ max_drain_buffer_size)
unfolding next_buffer
next_buffer_bounds buff stored small fits = ground arith

module _ (ops : ChunkOps) where
  chunk_parsed-InBounds :
      (expected num : ℕ) (s : Session) (again : ℕ → Result → Codex → Run Drained)
      (p : Option Parsed)
      → ((num' : ℕ) (r : Result) (k : Codex) → InBounds (again num' r k))
      → InBounds (chunk_parsed ops expected num s again p)
  unfolding chunk_parsed
  chunk_parsed-InBounds expected num s again none on = tt
  chunk_parsed-InBounds expected num s again (some (r, k, calls)) on = by_test s.is_open
    where
      num' : ℕ
      num' = num + length (bytes_of calls)

      by_test :
          (b : Bool)
          → InBounds (
              if b
              then again num' r k
              else returned (with_underrun (ltb num' expected) (chunked_drained expected r num' s)))
      by_test true = on num' r k
      by_test false = tt

  chunk_read-InBounds :
      (expected num old_size size : ℕ) (k : Codex) (s : Session)
      (again : ℕ → ℕ → Result → Codex → Session → Run Drained) (o : Option (Rv Received × Session))
      → ReadsSome s size o
      → ((num' n : ℕ) (r : Result) (k' : Codex) (s' : Session)
          → n ≤ size
          → InBounds (again num' (old_size + n) r k' s'))
      → InBounds (chunk_read ops expected num old_size k again o)
  unfolding chunk_read
  chunk_read-InBounds expected num old_size size k s again none reads on = tt
  chunk_read-InBounds expected num old_size size k s again (some ((out, dropped), s')) reads on =
      chunk_parsed-InBounds expected num s' _ (parse_read ops k (bytes_read out))
        (λ num' r k'. on num' (length (bytes_read out)) r k' s' reads.fits)

  -- From a buffer of at most `MAX_DRAIN_BUFFER_SIZE` that holds no more than its size, every span
  -- that the loop reads into lies in its buffer.
  pub drain_chunked-InBounds :
      (fuel expected buff num stored : ℕ) (r : Result) (k : Codex) (s : Session)
      → buff ≤ max_drain_buffer_size
      → stored ≤ buff
      → InBounds (drain_chunked ops fuel expected buff r k s num stored)
  unfolding drain_chunked
  drain_chunked-InBounds fuel expected buff num stored done k s small fits = tt
  drain_chunked-InBounds fuel expected buff num stored error k s small fits = tt
  drain_chunked-InBounds zero expected buff num stored continue k s small fits = tt
  drain_chunked-InBounds (suc fuel) expected buff num stored continue k s small fits =
      let buff' = (next_buffer buff stored).0 in
      let old_size = (next_buffer buff stored).1 in
      let bounds = next_buffer_bounds buff stored small fits in
      let inside : ltb buff' old_size ≡ false = ground (arith, bounds.0) in
      let size = buff' - old_size in
      rw inside (
        with_notes-InBounds _ _ (
          chunk_read-InBounds expected num old_size size k s
            (λ num' stored' r k' s'. drain_chunked ops fuel expected buff' r k' s' num' stored')
            (read s size) (read-Reads s size)
            (λ num' n r k' s' few.
              drain_chunked-InBounds fuel expected buff' num' (old_size + n) r k' s' bounds.1
                (omega (arith, bounds.0)))))

  -- The buffer of a chunked body that is expected to be larger than `MAX_DRAIN_BUFFER_SIZE` is larger
  -- than that itself; once it is full and the coding goes on, the next span lies outside of it.
  pub drain_chunked_overflow :
      (fuel expected num stored : ℕ) (k : Codex) (s : Session)
      → max_drain_buffer_size < expected
      → buffer_size true expected ≤ stored
      → drain_chunked ops (suc fuel) expected (buffer_size true expected) continue k s num stored
        ≡ out_of_bounds
  unfolding drain_chunked next_buffer
  drain_chunked_overflow fuel expected num stored k s large full =
      let cut : ltb max_drain_buffer_size expected ≡ true = ground arith in
      let at_end : leb (max_drain_buffer_size + 50) stored ≡ true = ground arith in
      let outside : ltb max_drain_buffer_size stored ≡ true = ground arith in
      rw (cut, at_end, outside) refl
