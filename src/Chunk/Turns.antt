-- ===== src/Chunk/Turns.antt =====
-- Each turn of the loop of `parse` leaves the machine where the bytes that it took lead.
use proxy_verifier.Base.{
  ℕ, zero, suc, ◌+◌, ◌-◌, ◌*◌, ◌≤◌, ◌<◌, Bytes, false, List, [], ◌∷◌, ◌++◌, Option, none, some, min,
  leb, ◌==◌, ◌≡◌, inl, inr, refl, sym, ap, subst, ◌∙◌, Bool-cases, length, take, drop, append-nil,
  append_assoc, is_xdigit, arith, if◌then◌else◌,
}
use proxy_verifier.Chunk.Codex.{
  ChunkOps, State, init, size, cr, lf, body, post_body_cr, post_body_lf, final, done, Codex, Call,
  Turn, Parsed, add_calls, read_size, end_size, body_turn, turn_in,
}
use proxy_verifier.Chunk.Machine.{Ran, add_bytes, follow, feed_in, run, run-next, run-ends}

-- The body bytes of the calls, in order.
abbrev pub bytes_of : List Call → Bytes
bytes_of [] = []
bytes_of (call ∷ calls) = call.chunk ++ bytes_of calls

abbrev pub forget : Option Parsed → Option Ran
forget none = none
forget (some (r, k, calls)) = some (r, k, bytes_of calls)

-- Inside a chunk there is something left to read.
abbrev pub IsInside : Codex → Type 0
IsInside k = k.state ≡ body → k.off < k.chunk_size

-- Turns that may pass before a byte is taken, and three for each byte.
abbrev pub rank : State → ℕ
rank init = 2
rank size = 1
rank lf = 1
rank s = 0

abbrev pub turns : Codex → Bytes → ℕ
turns k view = rank k.state + 3 * length view

pub bytes_of-append : (xs ys : List Call) → bytes_of (xs ++ ys) ≡ bytes_of xs ++ bytes_of ys
bytes_of-append [] ys = refl
bytes_of-append (x ∷ xs) ys =
    ap (λ t. x.chunk ++ t) (bytes_of-append xs ys)
    ∙ sym (append_assoc x.chunk (bytes_of xs) (bytes_of ys))

pub forget-add_calls :
    (calls : List Call) (later : Option Parsed)
    → forget (add_calls calls later) ≡ add_bytes (bytes_of calls) (forget later)
forget-add_calls calls none = refl
forget-add_calls calls (some (r, k, later)) = ap (λ t. some (r, k, t)) (bytes_of-append calls later)

pub add_bytes_nil : (o : Option Ran) → add_bytes [] o ≡ o
add_bytes_nil none = refl
add_bytes_nil (some (r, k, out)) = refl

pub add_bytes-append :
    (xs ys : Bytes) (o : Option Ran) → add_bytes xs (add_bytes ys o) ≡ add_bytes (xs ++ ys) o
add_bytes-append xs ys none = refl
add_bytes-append xs ys (some (r, k, out)) = ap (λ t. some (r, k, t)) (sym (append_assoc xs ys out))

module _ (ops : ChunkOps) where
  abbrev pub in_size : Codex → Bytes → Codex
  in_size k text = record k { size_text = text; state = size }

  -- The loop over the digits against the machine.
  run-read_size :
      (k : Codex) (text view : Bytes)
      → let t = end_size ops (in_size k text) (read_size ops text view) in
        run ops (in_size k text) view ≡ run ops t.codex t.rest
  unfolding feed_in end_size read_size
  run-read_size k text [] = unfold run in refl
  run-read_size k text (c ∷ cs) = elim (Bool-cases (is_xdigit c)) [
    | inl digit ↦ rw digit (
        run-next ops (in_size k text) (in_size k (ops.write_size text c)) c cs [] (rw digit)
        ∙ add_bytes_nil _
        ∙ run-read_size k (ops.write_size text c) cs)
    | inr other ↦ rw other (unfold run in rw other)
  ]

  -- Behind `n` bytes of the body.
  abbrev pub past : Codex → ℕ → Codex
  past k off = record k { off = off; state = if leb k.chunk_size off then post_body_cr else body }

  pub run-body_bytes :
      (n : ℕ) (k : Codex) (view : Bytes)
      → k.state ≡ body
      → 0 < n
      → n ≤ length view
      → k.off + n ≤ k.chunk_size
      → run ops k view ≡ add_bytes (take n view) (run ops (past k (k.off + n)) (drop n view))
  unfolding feed_in
  run-body_bytes zero k view s p l h = absurd (omega arith)
  run-body_bytes (suc n) k [] s p l h = absurd (omega arith)
  run-body_bytes (suc zero) k (c ∷ cs) s p l h =
      run-next ops k (past k (k.off + 1)) c cs (c ∷ []) (rw s refl)
  run-body_bytes (suc (suc n)) k (c ∷ cs) s p l h =
      let k' = past k (k.off + 1) in
      let inside : k'.state ≡ body = ground arith in
      let sum : k.off + 1 + suc n ≡ k.off + suc (suc n) = omega arith in
      run-next ops k k' c cs (c ∷ []) (rw s refl)
      ∙ ap (add_bytes (c ∷ [])) (
          run-body_bytes (suc n) k' cs inside (omega arith) (omega arith) (omega arith)
          ∙ ap (λ o. add_bytes (take (suc n) cs) (run ops (past k o) (drop (suc n) cs))) sum)
      ∙ add_bytes-append (c ∷ []) (take (suc n) cs) _

  run-body_turn :
      (k : Codex) (c : ℕ) (cs : Bytes)
      → k.state ≡ body
      → k.off < k.chunk_size
      → let t = body_turn ops k (c ∷ cs) in
        run ops k (c ∷ cs) ≡ add_bytes (bytes_of t.calls) (run ops t.codex t.rest)
  unfolding body_turn
  run-body_turn k c cs s inside =
      let n = min (length (c ∷ cs)) (k.chunk_size - k.off) in
      run-body_bytes n k (c ∷ cs) s (omega arith) (omega arith) (omega arith)
      ∙ ap (λ t. add_bytes t (run ops (past k (k.off + n)) (drop n (c ∷ cs))))
          (sym (append-nil (take n (c ∷ cs))))

  -- A turn that goes on leaves the machine where the bytes that it took lead.
  abbrev pub Follows : Codex → Bytes → Turn → Type 0
  Follows k view t = run ops k view ≡ (
      if t.is_done
      then some (done, t.codex, bytes_of t.calls)
      else add_bytes (bytes_of t.calls) (run ops t.codex t.rest))

  end_size_quiet :
      (k : Codex) (p : Bytes × Bytes)
      → ((end_size ops k p).is_done ≡ false) × ((end_size ops k p).calls ≡ [])
  unfolding end_size
  end_size_quiet k (text, []) = (refl, refl)
  end_size_quiet k (text, c ∷ cs) = (refl, refl)

  size_turn :
      (k : Codex) (view : Bytes)
      → Follows
          (in_size k k.size_text)
          view
          (end_size ops (in_size k k.size_text) (read_size ops k.size_text view))
  size_turn k view =
      let read = read_size ops k.size_text view in
      let quiet = end_size_quiet (in_size k k.size_text) read in
      rw (quiet.0, quiet.1) (run-read_size k k.size_text view ∙ sym (add_bytes_nil _))

  -- Behind the line feed of a size line.
  lf_turn :
      (k : Codex) (cs : Bytes) → k.state ≡ lf → Follows k (b'\n' ∷ cs) (turn_in ops lf k b'\n' cs)
  unfolding turn_in feed_in
  lf_turn k cs e = elim (Bool-cases (k.chunk_size == 0)) [
    | inl none_left ↦ rw none_left (
        run-next ops k (record k { state = post_body_cr }) b'\n' cs [] (rw (e, none_left) refl)
        ∙ ap (add_bytes []) (
            sym (add_bytes_nil _)
            ∙ sym (
                run-next ops (record k { state = post_body_cr }) (record k { state = post_body_cr })
                  b'\n' cs [] refl)))
    | inr some_left ↦
        rw some_left
          (run-next ops k (record k { off = 0; state = body }) b'\n' cs [] (rw (e, some_left) refl))
  ]

  -- Behind the line feed of a chunk, or a byte in its place.
  post_body_turn :
      (k : Codex) (c : ℕ) (cs : Bytes)
      → k.state ≡ post_body_lf
      → Follows k (c ∷ cs) (turn_in ops post_body_lf k c cs)
  unfolding turn_in feed_in
  post_body_turn k c cs e = elim (Bool-cases (c == b'\n')) [
    | inl newline ↦ elim (Bool-cases (k.chunk_size == 0)) [
      | inl last ↦
          rw (newline, last)
            (run-ends ops k (record k { off = 0; state = final }) c cs (rw (e, newline, last) refl))
      | inr more ↦
          rw (newline, more)
            (run-next ops k (record k { off = 0; state = size }) c cs []
              (rw (e, newline, more) refl))
    ]
    | inr other ↦ rw other (run-ends ops k (record k { state = final }) c cs (rw (e, other) refl))
  ]

  pub turn_in-Follows :
      (s : State) (k : Codex) (c : ℕ) (cs : Bytes)
      → k.state ≡ s
      → (s ≡ body → k.off < k.chunk_size)
      → (s ≡ lf → c ≡ b'\n')
      → Follows k (c ∷ cs) (turn_in ops s k c cs)
  unfolding turn_in feed_in
  turn_in-Follows init k c cs e inside lf_only =
      unfold run in
      (ap (λ s. follow (feed_in ops s k c) (λ k'. run ops k' cs)) e ∙ sym (add_bytes_nil _))
  turn_in-Follows size k c cs e inside lf_only =
      subst (λ k'. Follows k' (c ∷ cs) (turn_in ops size k' c cs))
        (ap (λ s. record k { state = s }) (sym e)) (size_turn k (c ∷ cs))
  turn_in-Follows cr k c cs e inside lf_only = run-next ops k _ c cs [] (rw e refl)
  turn_in-Follows lf k c cs e inside lf_only = rw (lf_only refl) (lf_turn k cs e)
  turn_in-Follows body k c cs e inside lf_only = run-body_turn k c cs e (inside refl)
  turn_in-Follows post_body_cr k c cs e inside lf_only = run-next ops k _ c cs [] (rw e refl)
  turn_in-Follows post_body_lf k c cs e inside lf_only = post_body_turn k c cs e
  turn_in-Follows final k c cs e inside lf_only = run-ends ops k k c cs (rw e refl)
