-- ===== src/Drain/Whole.antt =====
-- `drain_body` as a whole.
use proxy_verifier.Base.{
  ℕ, ◌+◌, ◌≤◌, Bytes, Bool, true, false, not, [], ◌∷◌, none, some, ltb, ◌==◌, ◌≡◌, refl, inl, inr,
  Bool-cases, length, drop, arith, if◌then◌else◌,
}
use proxy_verifier.Chunk.Codex.{ChunkOps, new_codex}
use proxy_verifier.Chunk.Turns.{bytes_of}
use proxy_verifier.Drain.Body.{
  Drained, with_notes, parse_whole, drain_length, drain_chunked, drain_open, drain_body,
  buffer_size, truncated,
}
use proxy_verifier.Drain.Length.{LengthDone, with_notes-LengthDone, drain_length-LengthDone}
use proxy_verifier.Message.Defs.{HttpHeader, has_no_content}
use proxy_verifier.Session.Errata.{Errata, Severity, diag, is_ok}
use proxy_verifier.Session.Reading.{pending, PollsWell}
use proxy_verifier.Session.Run.{Run, returned, unfinished}
use proxy_verifier.Session.Socket.{Session}

-- The body bytes that were read with the header.
abbrev pub initial_of : Session → Bytes → Bytes
initial_of s read_bytes = drop s.body_offset read_bytes

-- Nothing more is taken.
takes_nothing :
    (expected num : ℕ) (s : Session) (errata : Errata)
    → (is_ok errata ≡ true → num ≡ expected)
    → LengthDone expected num (pending s.reads) (returned ((num, errata), s))
takes_nothing expected num s errata h = record {
  taken = [];
  in_order = refl;
  counted = omega arith;
  complete = h;
}

module _ (ops : ChunkOps) where
  drain_open-LengthDone :
      (fuel expected : ℕ) (h : HttpHeader) (s : Session) (initial : Bytes)
      → h.chunked_p ≡ false
      → expected ≤ length initial + fuel
      → PollsWell s
      → LengthDone expected
          (length initial)
          (pending s.reads)
          (drain_open ops fuel h expected s initial)
  unfolding drain_open
  drain_open-LengthDone fuel expected h s initial plain enough well =
      by_test s.is_open h.chunked_p plain
    where
      by_test :
          (b c : Bool)
          → c ≡ false
          → LengthDone expected (length initial) (pending s.reads) (
              if not b
              then returned ((length initial, Severity.error ∷ []), s)
              else if c
              then (elim (parse_whole ops new_codex initial) as (λ p. Run Drained) [
                | none ↦ unfinished
                | some (result, k, calls) ↦
                    drain_chunked ops fuel expected
                      (buffer_size c expected)
                      result
                      k
                      s
                      (length (bytes_of calls))
                      (length initial)
              ])
              else drain_length fuel expected
                  (buffer_size c expected)
                  s
                  (length initial)
                  (length initial))
      by_test b true e = ground (arith, e)
      by_test false false e = takes_nothing expected (length initial) s _ (λ ok. ground (arith, ok))
      by_test true false e =
          drain_length-LengthDone fuel expected (buffer_size false expected) (length initial)
            (length initial) s enough well

  -- For a message that is not chunked and may have a body, on a socket whose calls of `poll` do not
  -- fail, and with as many rounds as bytes are expected, `drain_body` ends unless a system call does
  -- not come back, fails no assertion, and begins no span behind the end of its buffer. It takes the
  -- next bytes of the stream in order and counts them and those read with the header; without an
  -- error the count is the expected one.
  pub drain_body-LengthDone :
      (fuel expected : ℕ) (h : HttpHeader) (s : Session) (read_bytes : Bytes)
      → h.chunked_p ≡ false
      → has_no_content h ≡ false
      → expected ≤ fuel
      → PollsWell s
      → LengthDone expected
          (length (initial_of s read_bytes))
          (pending s.reads)
          (drain_body ops fuel h expected s read_bytes)
  unfolding drain_body
  drain_body-LengthDone fuel expected h s read_bytes plain content enough well =
      let initial = initial_of s read_bytes in
      let size = length initial in
      let loop = drain_open ops fuel h expected s initial in
      let looped : LengthDone expected size (pending s.reads)
          (with_notes (truncated expected) loop) =
        with_notes-LengthDone (truncated expected) expected size (pending s.reads) loop
          (drain_open-LengthDone fuel expected h s initial plain (omega arith) well) in
      elim (Bool-cases (expected == size)) [
        | inl same ↦
            simp (plain, content, same)
              (takes_nothing expected size s (diag ∷ []) (λ ok. ground arith))
        | inr other ↦ elim (Bool-cases (ltb expected size)) [
          | inl over ↦
              simp (plain, content, other, over)
                (takes_nothing expected size s _ (λ ok. ground (arith, ok)))
          | inr under ↦
              let missing : ltb size expected ≡ true = ground arith in
              simp (plain, content, other, under, missing) looped
        ]
      ]
