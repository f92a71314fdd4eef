-- ===== src/Chunk/RoundTrip.antt =====
-- What `transmit` sends, `parse` reads back.
use mathlib.Core.List.{flatten}
use proxy_verifier.Base.{
  ℕ, zero, suc, ◌+◌, ◌≤◌, ◌<◌, ◌^◌, Bytes, true, false, List, [], ◌∷◌, ◌++◌, Option, some, ltb,
  ◌==◌, ◌≡◌, ◌≢◌, refl, ap, subst, ◌∙◌, append_assoc, length, length-append, take, drop,
  length-drop, length-take, take-append-drop, arith, if◌then◌else◌,
}
use proxy_verifier.Chunk.Codex.{ChunkOps, ChunkLaws, http_eol, final, done, Codex, new_codex}
use proxy_verifier.Chunk.Machine.{add_bytes, feed_in, run}
use proxy_verifier.Chunk.Segments.{parse_all, parse_all-run}
use proxy_verifier.Chunk.Transmit.{
  Writer, IsReliable, zero_chunk, write_zero_chunk, Transmitted, transmit,
}
use proxy_verifier.Chunk.Turns.{forget, in_size}
use proxy_verifier.Chunk.Wire.{between, run-chunk, run-zero_chunk}

abbrev pub final_codex : Codex
final_codex = record { chunk_size = 0; off = 0; size_text = []; state = final }

append_4 : (a b c d e : Bytes) → (((a ++ b) ++ c) ++ d) ++ e ≡ a ++ (b ++ (c ++ (d ++ e)))
append_4 a b c d e =
    append_assoc ((a ++ b) ++ c) d e
    ∙ append_assoc (a ++ b) c (d ++ e)
    ∙ append_assoc a b (c ++ (d ++ e))

module _ {ops : ChunkOps} (laws : ChunkLaws ops) {S : Type 0} {w : Writer S} {sent : S → Bytes}
    (reliable : IsReliable w sent) where
  -- The bytes on the wire, and that the machine takes the data out of them.
  record Sends (s : S) (view : Bytes) (total : ℕ) (r : Option (Transmitted S)) : Type 0 where
    last : S
    wire : Bytes
    returns : r ≡ some (last, total + length view, false)
    sends : sent last ≡ sent s ++ wire
    reads : (k : Codex) → run ops (in_size ops k []) wire ≡ some (done, final_codex, view)

  Sends-end : (s : S) (total : ℕ) → Sends s [] total (some (write_zero_chunk ops w s total))
  unfolding write_zero_chunk
  Sends-end s total = record {
    last = (w.write s zero_chunk).0;
    wire = zero_chunk;
    returns = ground (arith, reliable.reports_all s zero_chunk);
    sends = reliable.sends_all s zero_chunk;
    reads = run-zero_chunk laws;
  }

  -- The size of the next chunk, and the session behind it.
  abbrev chunk_of : Bytes → ℕ → ℕ
  chunk_of view chunk_size = if ltb (length view) chunk_size then length view else chunk_size

  abbrev line_sent : S → ℕ → S
  line_sent s n = (w.write s (ops.size_line n)).0

  abbrev data_sent : S → ℕ → Bytes → S
  data_sent s n view = (w.write (line_sent s n) (take n view)).0

  abbrev chunk_sent : S → ℕ → Bytes → S
  chunk_sent s n view = (w.write (data_sent s n view) http_eol).0

  size_line_pos : (n : ℕ) → n < 2 ^ 32 → (length (ops.size_line n) == 0) ≡ false
  size_line_pos n small =
      let (digits, line, hex) = laws.size_line_digits n small in
      ground (arith, ap length line, length-append digits http_eol)

  transmit_round :
      (fuel : ℕ) (s : S) (c : ℕ) (cs : Bytes) (chunk_size total n : ℕ)
      → n ≡ chunk_of (c ∷ cs) chunk_size
      → 0 < chunk_size
      → n < 2 ^ 32
      → transmit ops w (suc fuel) s (c ∷ cs) chunk_size total
        ≡ transmit ops w fuel (chunk_sent s n (c ∷ cs)) (drop n (c ∷ cs)) n (total + n)
  unfolding transmit
  transmit_round fuel s c cs chunk_size total n e p small =
      let piece = take n (c ∷ cs) in
      let all_of_it : length piece ≡ n = ground (arith, length-take n (c ∷ cs)) in
      let positive : (n == 0) ≡ false = ground arith in
      let same : (n == n) ≡ true = ground arith in
      rw
        (
          ← e,
          reliable.reports_all s (ops.size_line n),
          size_line_pos n small,
          reliable.reports_all (line_sent s n) piece,
          all_of_it,
          positive,
          same,
        )
        refl

  -- One more chunk in front of what is sent already.
  Sends-round :
      (s : S) (view : Bytes) (total n : ℕ) (r r' : Option (Transmitted S))
      → view ≢ []
      → 0 < n
      → n ≤ length view
      → n < 2 ^ 32
      → r ≡ r'
      → Sends (chunk_sent s n view) (drop n view) (total + n) r'
      → Sends s view total r
  Sends-round s view total n r r' ne p fits small e later =
      let piece = take n view in
      let long : length piece ≡ n = ground (arith, length-take n view) in
      let piece_ne : piece ≢ [] = λ empty. ground (arith, ap length empty) in
      let more : List ℕ = ops.size_line n ++ (piece ++ (http_eol ++ later.wire)) in
      record {
        last = later.last;
        wire = more;
        returns =
            e
            ∙ later.returns
            ∙ ap (λ t. some (later.last, t, false)) (ground (arith, length-drop n view));
        sends =
            later.sends
            ∙ ap (λ t. t ++ later.wire)
                (reliable.sends_all (data_sent s n view) http_eol
                  ∙ ap (λ t. t ++ http_eol)
                      (reliable.sends_all (line_sent s n) piece
                        ∙ ap (λ t. t ++ piece) (reliable.sends_all s (ops.size_line n))))
            ∙ append_4 (sent s) (ops.size_line n) piece http_eol later.wire;
        reads = λ k.
            subst
              (λ m.
                run ops (in_size ops k []) (ops.size_line m ++ (piece ++ (http_eol ++ later.wire)))
                ≡ add_bytes piece (run ops (between m) later.wire))
              long (run-chunk laws k piece later.wire piece_ne (omega arith))
            ∙ ap (add_bytes piece) (later.reads (between n))
            ∙ ap (λ t. some (done, final_codex, t)) (take-append-drop n view);
      }

  transmit-Sends :
      (fuel : ℕ) (s : S) (view : Bytes) (chunk_size total : ℕ)
      → length view ≤ fuel
      → 0 < chunk_size
      → chunk_size < 2 ^ 32
      → Sends s view total (transmit ops w fuel s view chunk_size total)
  unfolding transmit
  transmit-Sends fuel s [] chunk_size total enough p small = Sends-end s total
  transmit-Sends zero s (c ∷ cs) chunk_size total enough p small = absurd (omega (arith, enough))
  transmit-Sends (suc fuel) s (c ∷ cs) chunk_size total enough p small =
      let view = c ∷ cs in
      let n = chunk_of view chunk_size in
      let positive : 0 < n = ground arith in
      let fits : n ≤ length view = ground arith in
      let n_small : n < 2 ^ 32 = ground arith in
      Sends-round s view total n _ _ (λ empty. ground (arith, ap length empty)) positive fits
        n_small (transmit_round fuel s c cs chunk_size total n refl p n_small)
        (transmit-Sends fuel (chunk_sent s n view) (drop n view) n (total + n)
          (omega (arith, length-drop n view)) positive n_small)

  -- The first byte does not tell the initial state from the state of a size.
  run_init :
      (wire : Bytes) (k : Codex) (out : Bytes)
      → run ops (in_size ops new_codex []) wire ≡ some (done, k, out)
      → run ops new_codex wire ≡ some (done, k, out)
  unfolding run feed_in
  run_init [] k out e = ground (arith, e)
  run_init (c ∷ cs) k out e = e

  -- For a session that sends all it is given and a chunk size between 1 and 2^32 - 1, `transmit` of a
  -- text returns, with the length of the text and no error, and what it has sent, cut into pieces in
  -- any way, is parsed to the end and gives the text back.
  pub transmit-parse_all :
      (s : S) (view : Bytes) (chunk_size : ℕ) (cut : Bytes → List Bytes)
      → 0 < chunk_size
      → chunk_size < 2 ^ 32
      → ((b : Bytes) → flatten (cut b) ≡ b)
      → (last : S) × (wire : Bytes) × (transmit ops w (length view) s view chunk_size 0
          ≡ some (last, length view, false))
        × (sent last ≡ sent s ++ wire)
        × (forget (parse_all ops new_codex (cut wire)) ≡ some (done, final_codex, view))
  transmit-parse_all s view chunk_size cut p small whole =
      let all = transmit-Sends (length view) s view chunk_size 0 (omega arith) p small in
      let total : 0 + length view ≡ length view = omega arith in
      (
        all.last,
        all.wire,
        all.returns ∙ ap (λ t. some (all.last, t, false)) total,
        all.sends,
        parse_all-run ops (cut all.wire) new_codex (λ e. cc)
            ∙ ap (run ops new_codex) (whole all.wire)
            ∙ run_init all.wire final_codex view (all.reads new_codex),
      )
