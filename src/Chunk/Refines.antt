-- ===== src/Chunk/Refines.antt =====
-- `parse` does what the byte machine does, whatever pieces of the body its callback is given.
use proxy_verifier.Base.{
  ℕ, zero, suc, ◌-◌, ◌≤◌, ◌<◌, Bytes, false, [], ◌∷◌, Option, none, some, min, ◌==◌, ◌≡◌, ◌⊎◌, inl,
  inr, refl, sym, ap, ◌∙◌, Bool-cases, length, length-drop, arith, if◌then◌else◌,
}
use proxy_verifier.Chunk.Codex.{
  ChunkOps, State, init, size, cr, lf, body, post_body_cr, post_body_lf, final, done, Codex, Turn,
  Parsed, add_calls, read_size, end_size, turn_in, parse, goes_on,
}
use proxy_verifier.Chunk.Machine.{add_bytes, feed_in, run, run-stuck}
use proxy_verifier.Chunk.Turns.{
  bytes_of, forget, IsInside, turns, forget-add_calls, Follows, turn_in-Follows,
}

-- A turn that goes on comes closer to the end of the data, and keeps the codex inside its chunk.
record Advances (k : Codex) (view : Bytes) (t : Turn) : Type 0 where
  fewer : turns t.codex t.rest < turns k view
  inside : IsInside t.codex

lf_or : (s : State) (c : ℕ) → (s ≡ lf → c ≡ b'\n') ⊎ ((s ≡ lf) × ((c == b'\n') ≡ false))
lf_or s c = elim (Bool-cases (c == b'\n')) [
  | inl newline ↦ inl (λ e. ground arith)
  | inr other ↦ lf_or_at s other
]
  where
    lf_or_at :
        (s : State)
        → (c == b'\n') ≡ false
        → (s ≡ lf → c ≡ b'\n') ⊎ ((s ≡ lf) × ((c == b'\n') ≡ false))
    lf_or_at lf h = inr (refl, h)
    lf_or_at _ h = inl (λ e. cc)

module _ (ops : ChunkOps) where
  length-read_size : (text view : Bytes) → length (read_size ops text view).1 ≤ length view
  unfolding read_size
  length-read_size text [] = omega arith
  length-read_size text (c ∷ cs) = ground (arith, length-read_size (ops.write_size text c) cs)

  end_size-Advances :
      (k : Codex) (c : ℕ) (cs : Bytes) (p : Bytes × Bytes)
      → k.state ≡ size
      → length p.1 ≤ length (c ∷ cs)
      → Advances k (c ∷ cs) (end_size ops k p)
  unfolding end_size
  end_size-Advances k c cs (text, []) e h = record { fewer = ground arith; inside = λ s. cc }
  end_size-Advances k c cs (text, d ∷ ds) e h = record {
    fewer = rw e (omega arith);
    inside = λ s. cc;
  }

  turn_in-Advances :
      (s : State) (k : Codex) (c : ℕ) (cs : Bytes)
      → k.state ≡ s
      → (s ≡ body → k.off < k.chunk_size)
      → (s ≡ lf → c ≡ b'\n')
      → (turn_in ops s k c cs).is_done ≡ false
      → Advances k (c ∷ cs) (turn_in ops s k c cs)
  unfolding turn_in
  turn_in-Advances init k c cs e inside lf_only d = record {
    fewer = rw e (omega arith);
    inside = λ s. cc;
  }
  turn_in-Advances size k c cs e inside lf_only d =
      end_size-Advances k c cs _ e (length-read_size k.size_text (c ∷ cs))
  turn_in-Advances cr k c cs e inside lf_only d = record {
    fewer = ground arith;
    inside = λ s. ground arith;
  }
  turn_in-Advances lf k c cs e inside lf_only d = record {
    fewer = ground (arith, lf_only refl);
    inside = λ s. ground (arith, lf_only refl);
  }
  turn_in-Advances body k c cs e inside lf_only d = record {
    fewer =
        ground
          (arith, inside refl, length-drop (min (length (c ∷ cs)) (k.chunk_size - k.off)) (c ∷ cs));
    inside = λ s. ground (arith, inside refl);
  }
  turn_in-Advances post_body_cr k c cs e inside lf_only d = record {
    fewer = ground arith;
    inside = λ s. ground arith;
  }
  turn_in-Advances post_body_lf k c cs e inside lf_only d = record {
    fewer = ground arith;
    inside = λ s. ground arith;
  }
  turn_in-Advances final k c cs e inside lf_only d = cc

  -- What the loop does behind a turn.
  abbrev after_turn : ℕ → Turn → Option Parsed
  after_turn fuel t =
      if t.is_done
      then some (done, t.codex, t.calls)
      else add_calls t.calls (parse ops fuel t.codex t.rest)

  -- At a byte other than a line feed the loop stays where it is.
  turn_stuck :
      (k : Codex) (c : ℕ) (cs : Bytes)
      → k.state ≡ lf
      → (c == b'\n') ≡ false
      → turn_in ops k.state k c cs ≡ goes_on k (c ∷ cs)
  unfolding turn_in
  turn_stuck k c cs e other = ap (λ s. turn_in ops s k c cs) e ∙ rw other refl

  -- At a byte other than a line feed in the state behind the carriage return of a size, `parse` does
  -- not come to an end, however many turns its loop takes.
  pub parse_stuck :
      (fuel : ℕ) (k : Codex) (c : ℕ) (cs : Bytes)
      → k.state ≡ lf
      → (c == b'\n') ≡ false
      → parse ops fuel k (c ∷ cs) ≡ none
  unfolding parse
  parse_stuck zero k c cs e other = refl
  parse_stuck (suc fuel) k c cs e other =
      ap (after_turn fuel) (turn_stuck k c cs e other)
      ∙ ap (add_calls []) (parse_stuck fuel k c cs e other)

  run_stuck :
      (k : Codex) (c : ℕ) (cs : Bytes)
      → k.state ≡ lf
      → (c == b'\n') ≡ false
      → run ops k (c ∷ cs) ≡ none
  unfolding feed_in
  run_stuck k c cs e other = run-stuck ops k c cs (rw (e, other) refl)

  -- A turn that leaves the machine where its bytes lead, before a loop that does.
  after_turn-run :
      (fuel : ℕ) (k : Codex) (view : Bytes) (t : Turn)
      → Follows ops k view t
      → (t.is_done ≡ false → forget (parse ops fuel t.codex t.rest) ≡ run ops t.codex t.rest)
      → forget (after_turn fuel t) ≡ run ops k view
  after_turn-run fuel k view t f later = elim (Bool-cases t.is_done) [
    | inl d ↦ simp d (rw d at (sym f))
    | inr d ↦ simp d (
        forget-add_calls t.calls (parse ops fuel t.codex t.rest)
        ∙ ap (add_bytes (bytes_of t.calls)) (later d)
        ∙ (rw d at (sym f)))
  ]

  -- For a codex inside its chunk, `parse` with fuel for all its turns gives the result, the codex and
  -- the body bytes of the byte machine, and `none` exactly where the machine is stuck.
  pub parse-run :
      (fuel : ℕ) (k : Codex) (view : Bytes)
      → IsInside k
      → turns k view ≤ fuel
      → forget (parse ops fuel k view) ≡ run ops k view
  unfolding parse
  parse-run fuel k [] inside enough = unfold run in refl
  parse-run zero k (c ∷ cs) inside enough = absurd (omega arith)
  parse-run (suc fuel) k (c ∷ cs) inside enough = elim (lf_or k.state c) [
    | inl lf_only ↦
        let t = turn_in ops k.state k c cs in
        after_turn-run fuel k (c ∷ cs) t (turn_in-Follows ops k.state k c cs refl inside lf_only)
          λ d.
            let a = turn_in-Advances k.state k c cs refl inside lf_only d in
            parse-run fuel t.codex t.rest a.inside (omega (arith, a.fewer))
    | inr (e, other) ↦
        ap forget (parse_stuck (suc fuel) k c cs e other) ∙ sym (run_stuck k c cs e other)
  ]
