-- ===== src/Chunk/Machine.antt =====
-- The chunked coding as a machine that takes one byte at a time: what `parse` is measured against.
use proxy_verifier.Base.{
  ℕ, ◌+◌, Bytes, [], ◌∷◌, ◌++◌, Option, none, some, leb, ◌==◌, ◌≡◌, ap, is_xdigit, if◌then◌else◌,
}
use proxy_verifier.Chunk.Codex.{
  ChunkOps, State, init, size, cr, lf, body, post_body_cr, post_body_lf, final, Result, continue,
  done, Codex,
}

-- A byte moves the machine and may be a byte of the body, or ends the coding, or is one that the
-- code never gets past.
pub data Fed : Type 0 where
  next : Codex → Bytes → Fed
  ends : Codex → Fed
  stuck : Fed

-- The result, the state behind it, and the bytes of the body; `none` where the machine is stuck.
abbrev pub Ran : Type 0
Ran = Result × Codex × Bytes

abbrev pub add_bytes : Bytes → Option Ran → Option Ran
add_bytes out none = none
add_bytes out (some (r, k, later)) = some (r, k, out ++ later)

-- What a byte leads to, with the rest of the run as a function of the state.
abbrev pub follow : Fed → (Codex → Option Ran) → Option Ran
follow (next k out) later = add_bytes out (later k)
follow (ends k) later = some (done, k, [])
follow stuck later = none

module _ (ops : ChunkOps) where
  abbrev pub feed_cr : Codex → ℕ → Fed
  feed_cr k c = next (record k { state = if c == b'\r' then lf else cr }) []

  abbrev pub feed_size : Codex → ℕ → Fed
  feed_size k c =
      if is_xdigit c
      then next (record k { size_text = ops.write_size k.size_text c; state = size }) []
      else feed_cr (record k { chunk_size = ops.svtou k.size_text; size_text = []; state = cr }) c

  unfoldable pub feed_in : State → Codex → ℕ → Fed
  feed_in init k c = feed_size k c
  feed_in size k c = feed_size k c
  feed_in cr k c = feed_cr k c
  feed_in lf k c =
      if c == b'\n'
      then (if k.chunk_size == 0
          then next (record k { state = post_body_cr }) []
          else next (record k { state = body; off = 0 }) [])
      else stuck
  feed_in body k c =
      next
        (record k {
          off = k.off + 1;
          state = if leb k.chunk_size (k.off + 1) then post_body_cr else body;
        })
        (c ∷ [])
  feed_in post_body_cr k c =
      next (record k { state = if c == b'\r' then post_body_lf else post_body_cr }) []
  feed_in post_body_lf k c =
      if c == b'\n'
      then (if k.chunk_size == 0
          then ends (record k { state = final; off = 0 })
          else next (record k { state = size; off = 0 }) [])
      else ends (record k { state = final })
  feed_in final k c = ends k

  unfoldable pub run : Codex → Bytes → Option Ran
  run k [] = some (continue, k, [])
  run k (c ∷ cs) = follow (feed_in k.state k c) (λ k'. run k' cs)

  pub run-next :
      (k k' : Codex) (c : ℕ) (cs out : Bytes)
      → feed_in k.state k c ≡ next k' out
      → run k (c ∷ cs) ≡ add_bytes out (run k' cs)
  unfolding run
  run-next k k' c cs out e = ap (λ f. follow f (λ k''. run k'' cs)) e

  pub run-ends :
      (k k' : Codex) (c : ℕ) (cs : Bytes)
      → feed_in k.state k c ≡ ends k'
      → run k (c ∷ cs) ≡ some (done, k', [])
  unfolding run
  run-ends k k' c cs e = ap (λ f. follow f (λ k''. run k'' cs)) e

  pub run-stuck :
      (k : Codex) (c : ℕ) (cs : Bytes) → feed_in k.state k c ≡ stuck → run k (c ∷ cs) ≡ none
  unfolding run
  run-stuck k c cs e = ap (λ f. follow f (λ k''. run k'' cs)) e
