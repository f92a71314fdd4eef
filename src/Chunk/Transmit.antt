-- ===== src/Chunk/Transmit.antt =====
-- `ChunkCodex::transmit` over the virtual `Session::write` (local/include/core/http.h).
use proxy_verifier.Base.{
  ℕ, zero, suc, ◌+◌, Bytes, Bool, true, false, [], ◌∷◌, ◌++◌, Option, none, some, ltb, ◌==◌, ◌≡◌,
  length, take, drop, if◌then◌else◌,
}
use proxy_verifier.Chunk.Codex.{ChunkOps, http_eol}

-- A session, with the number of bytes that a call of `write` reports; 0 stands for all that is not
-- positive.
pub record Writer (S : Type 0) : Type 0 where
  pub write : S → Bytes → S × ℕ

abbrev pub zero_chunk : Bytes
zero_chunk = b'0' ∷ b'\r' ∷ b'\n' ∷ b'\r' ∷ b'\n' ∷ []

-- The session behind the call, `total`, and whether an error code is returned.
abbrev pub Transmitted : Type 0 → Type 0
Transmitted S = S × ℕ × Bool

module _ (ops : ChunkOps) {S : Type 0} (w : Writer S) where
  -- Behind the loop: the final chunk.
  unfoldable pub write_zero_chunk : S → ℕ → Transmitted S
  write_zero_chunk s total =
      let (s', n) = w.write s zero_chunk in
      (s', total, (if n == length zero_chunk then false else true))

  -- The loop, with a bound on its rounds; `none` is a loop that has not ended. A round that writes
  -- its size line and then no byte of data comes again.
  unfoldable pub transmit : ℕ → S → Bytes → ℕ → ℕ → Option (Transmitted S)
  unfolding write_zero_chunk
  transmit fuel s [] chunk_size total = some (write_zero_chunk s total)
  transmit zero s (c ∷ cs) chunk_size total = none
  transmit (suc fuel) s (c ∷ cs) chunk_size total =
      let view = c ∷ cs in
      let chunk_size' = if ltb (length view) chunk_size then length view else chunk_size in
      let (s1, n1) = w.write s (ops.size_line chunk_size') in
      let (s2, n2) = w.write s1 (take chunk_size' view) in
      let (s3, n3) = w.write s2 http_eol in
      let again = transmit fuel s2 view chunk_size' total in
      let onward = transmit fuel s3 (drop chunk_size' view) chunk_size' (total + n2) in
      if n1 == 0
      then some (s1, total, true)
      else if n2 == 0
      then again
      else if n2 == chunk_size'
      then onward
      else some (s2, total + n2, true)

-- A session that sends all that it is given.
pub record IsReliable {S : Type 0} (w : Writer S) (sent : S → Bytes) : Type 0 where
  pub reports_all : (s : S) (view : Bytes) → (w.write s view).1 ≡ length view
  pub sends_all : (s : S) (view : Bytes) → sent (w.write s view).0 ≡ sent s ++ view
