-- ===== src/Chunk/Segments.antt =====
-- Data that comes in pieces, as `drain_body` (local/src/core/http.cc) reads it from the socket.
use mathlib.Core.List.{flatten}
use proxy_verifier.Base.{
  ℕ, Bytes, List, [], ◌∷◌, ◌++◌, Option, none, some, ◌≡◌, refl, sym, ap, subst, ◌∙◌, arith,
}
use proxy_verifier.Chunk.Codex.{
  ChunkOps, State, init, size, cr, lf, body, post_body_cr, post_body_lf, final, continue, done,
  error, Codex, Parsed, add_calls, parse,
}
use proxy_verifier.Chunk.Machine.{Ran, Fed, next, ends, stuck, add_bytes, follow, feed_in, run}
use proxy_verifier.Chunk.Refines.{parse-run}
use proxy_verifier.Chunk.Turns.{
  bytes_of, forget, forget-add_calls, add_bytes-append, IsInside, turns,
}

module _ (ops : ChunkOps) where
  -- What follows a call of `parse`: the next piece is read only while the result is `CONTINUE`.
  abbrev pub parse_next : Option Parsed → (Codex → Option Parsed) → Option Parsed
  parse_next none later = none
  parse_next (some (done, k, calls)) later = some (done, k, calls)
  parse_next (some (error, k, calls)) later = some (error, k, calls)
  parse_next (some (continue, k, calls)) later = add_calls calls (later k)

  -- The calls of `parse` on the pieces, each with fuel for all its turns.
  unfoldable pub parse_all : Codex → List Bytes → Option Parsed
  parse_all k [] = some (continue, k, [])
  parse_all k (view ∷ views) =
      parse_next (parse ops (turns k view) k view) (λ k'. parse_all k' views)

  abbrev run_next : Option Ran → (Codex → Option Ran) → Option Ran
  run_next none later = none
  run_next (some (done, k, out)) later = some (done, k, out)
  run_next (some (error, k, out)) later = some (error, k, out)
  run_next (some (continue, k, out)) later = add_bytes out (later k)

  run_next-add_bytes :
      (out : Bytes) (o : Option Ran) (later : Codex → Option Ran)
      → run_next (add_bytes out o) later ≡ add_bytes out (run_next o later)
  run_next-add_bytes out none later = refl
  run_next-add_bytes out (some (done, k, more)) later = refl
  run_next-add_bytes out (some (error, k, more)) later = refl
  run_next-add_bytes out (some (continue, k, more)) later =
      sym (add_bytes-append out more (later k))

  -- The machine takes one text behind another.
  run-append :
      (k : Codex) (xs ys : Bytes)
      → run ops k (xs ++ ys) ≡ run_next (run ops k xs) (λ k'. run ops k' ys)
  unfolding run
  run-append k [] ys = sym (nil (run ops k ys))
    where
      nil : (o : Option Ran) → add_bytes [] o ≡ o
      nil none = refl
      nil (some (r, k', out)) = refl
  run-append k (c ∷ xs) ys = followed (feed_in ops k.state k c) (λ k'. run-append k' xs ys)
    where
      followed :
          (f : Fed)
          → ((k' : Codex)
              → run ops k' (xs ++ ys) ≡ run_next (run ops k' xs) (λ k''. run ops k'' ys))
          → follow f (λ k'. run ops k' (xs ++ ys))
            ≡ run_next (follow f (λ k'. run ops k' xs)) (λ k'. run ops k' ys)
      followed (next k' out) ih =
          ap (add_bytes out) (ih k')
          ∙ sym (run_next-add_bytes out (run ops k' xs) (λ k''. run ops k'' ys))
      followed (ends k') ih = refl
      followed stuck ih = refl

  feed_in-IsInside :
      (s : State) (k k' : Codex) (c : ℕ) (out : Bytes)
      → k.state ≡ s
      → IsInside k
      → feed_in ops s k c ≡ next k' out
      → IsInside k'
  unfolding feed_in
  feed_in-IsInside init k k' c out e inside h s = ground arith
  feed_in-IsInside size k k' c out e inside h s = ground arith
  feed_in-IsInside cr k k' c out e inside h s = ground arith
  feed_in-IsInside lf k k' c out e inside h s = ground arith
  feed_in-IsInside body k k' c out e inside h s = ground arith
  feed_in-IsInside post_body_cr k k' c out e inside h s = ground arith
  feed_in-IsInside post_body_lf k k' c out e inside h s = ground arith
  feed_in-IsInside final k k' c out e inside h s = cc

  -- A run that stops for more data stops inside the chunk.
  abbrev Keeps : Option Ran → Type 0
  Keeps (some (continue, k, out)) = IsInside k
  Keeps o = Unit

  Keeps-add_bytes : (out : Bytes) (o : Option Ran) → Keeps o → Keeps (add_bytes out o)
  Keeps-add_bytes out none h = tt
  Keeps-add_bytes out (some (continue, k, more)) h = h
  Keeps-add_bytes out (some (done, k, more)) h = tt
  Keeps-add_bytes out (some (error, k, more)) h = tt

  run-Keeps : (view : Bytes) (k : Codex) → IsInside k → Keeps (run ops k view)
  unfolding run
  run-Keeps [] k inside = inside
  run-Keeps (c ∷ cs) k inside =
      followed (feed_in ops k.state k c)
        (λ k' out e. run-Keeps cs k' (feed_in-IsInside k.state k k' c out refl inside e))
    where
      followed :
          (f : Fed)
          → ((k' : Codex) (out : Bytes) → f ≡ next k' out → Keeps (run ops k' cs))
          → Keeps (follow f (λ k'. run ops k' cs))
      followed (next k' out) h = Keeps-add_bytes out (run ops k' cs) (h k' out refl)
      followed (ends k') h = tt
      followed stuck h = tt

  forget-parse_next :
      (p : Option Parsed) (later : Codex → Option Parsed) (later' : Codex → Option Ran)
      → Keeps (forget p)
      → ((k : Codex) → IsInside k → forget (later k) ≡ later' k)
      → forget (parse_next p later) ≡ run_next (forget p) later'
  forget-parse_next none later later' h same = refl
  forget-parse_next (some (done, k, calls)) later later' h same = refl
  forget-parse_next (some (error, k, calls)) later later' h same = refl
  forget-parse_next (some (continue, k, calls)) later later' h same =
      forget-add_calls calls (later k) ∙ ap (add_bytes (bytes_of calls)) (same k h)

  pub parse_all-run :
      (views : List Bytes) (k : Codex)
      → IsInside k
      → forget (parse_all k views) ≡ run ops k (flatten views)
  unfolding parse_all flatten
  parse_all-run [] k inside = unfold run in refl
  parse_all-run (view ∷ views) k inside =
      let parsed = parse-run ops (turns k view) k view inside (omega arith) in
      forget-parse_next (parse ops (turns k view) k view) _ (λ k'. run ops k' (flatten views))
        (subst Keeps (sym parsed) (run-Keeps view k inside))
        (λ k' inside'. parse_all-run views k' inside')
      ∙ ap (λ o. run_next o (λ k'. run ops k' (flatten views))) parsed
      ∙ sym (run-append k view (flatten views))

  -- How the data is cut into pieces makes no difference: from a codex inside its chunk, two cuts of
  -- the same data give the same result, the same codex and the same body bytes.
  pub parse_all-flatten :
      (views views' : List Bytes) (k : Codex)
      → IsInside k
      → flatten views ≡ flatten views'
      → forget (parse_all k views) ≡ forget (parse_all k views')
  parse_all-flatten views views' k inside same =
      parse_all-run views k inside ∙ ap (run ops k) same ∙ sym (parse_all-run views' k inside)
