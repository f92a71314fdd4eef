-- ===== src/Drain/Chunked.antt =====
-- A chunked body is drained to its final chunk or to the expected size, or there is an error.
use mathlib.Core.List.{flatten}
use proxy_verifier.Base.{
  ℕ, ◌+◌, Bytes, true, List, [], ◌∷◌, ◌++◌, Option, none, some, ◌≡◌, ◌⊎◌, sym, ap, ◌∙◌, append-nil,
  append_assoc, length, length-append, arith,
}
use proxy_verifier.Chunk.Codex.{
  ChunkOps, Codex, Call, Result, continue, done, error, Parsed, add_calls,
}
use proxy_verifier.Chunk.Segments.{parse_next, parse_all}
use proxy_verifier.Chunk.Turns.{bytes_of, bytes_of-append}
use proxy_verifier.Drain.Body.{Drained, with_notes, parse_whole}
use proxy_verifier.Session.Errata.{Errata, is_ok, is_ok-append}
use proxy_verifier.Session.Reading.{pending}
use proxy_verifier.Session.Run.{Run, returned, blocked, unfinished, aborted, out_of_bounds}
use proxy_verifier.Session.Socket.{Session}

module _ (ops : ChunkOps) where
  -- What the pieces of a body come to behind a result of `parse`.
  abbrev pub parse_on : Result → Codex → List Bytes → Option Parsed
  parse_on continue k pieces = parse_all ops k pieces
  parse_on done k pieces = some (done, k, [])
  parse_on error k pieces = some (error, k, [])

  -- What a drained body has taken from a stream, from `num` bytes on.
  pub record ChunksTaken (expected num : ℕ) (r : Result) (k : Codex) (stream : Bytes) (num' : ℕ)
      (errata : Errata) (s' : Session) : Type 0 where
    pub pieces : List Bytes
    pub in_order : stream ≡ flatten pieces ++ pending s'.reads
    pub result : Result
    pub codex : Codex
    pub calls : List Call
    pub parsed : parse_on r k pieces ≡ some (result, codex, calls)
    pub counted : num' ≡ num + length (bytes_of calls)
    pub complete : is_ok errata ≡ true → (result ≡ done) ⊎ (num' ≡ expected)

  -- A loop that does not end has met bytes on which `parse` does not end.
  abbrev pub ChunkedDone : ℕ → ℕ → Result → Codex → Bytes → Run Drained → Type 0
  ChunkedDone expected num r k stream (returned ((num', errata), s')) =
      ChunksTaken expected num r k stream num' errata s'
  ChunkedDone expected num r k stream unfinished =
      (pieces : List Bytes) × (rest : Bytes) × (stream ≡ flatten pieces ++ rest)
      × (parse_on r k pieces ≡ none)
  ChunkedDone expected num r k stream blocked = Unit
  ChunkedDone expected num r k stream aborted = ⊥
  ChunkedDone expected num r k stream out_of_bounds = Unit

  pub with_notes-ChunkedDone :
      (notes : Errata) (expected num : ℕ) (r : Result) (k : Codex) (stream : Bytes)
      (run : Run Drained)
      → ChunkedDone expected num r k stream run
      → ChunkedDone expected num r k stream (with_notes notes run)
  with_notes-ChunkedDone notes expected num r k stream (returned ((n, errata), s)) t = record {
    pieces = t.pieces;
    in_order = t.in_order;
    result = t.result;
    codex = t.codex;
    calls = t.calls;
    parsed = t.parsed;
    counted = t.counted;
    complete = λ h. t.complete (is_ok-append notes errata h);
  }
  with_notes-ChunkedDone notes expected num r k stream blocked t = tt
  with_notes-ChunkedDone notes expected num r k stream unfinished t = t
  with_notes-ChunkedDone notes expected num r k stream aborted t = t
  with_notes-ChunkedDone notes expected num r k stream out_of_bounds t = tt

  -- A piece in front.
  pub parse_on-piece :
      (k k' : Codex) (view : Bytes) (r : Result) (calls : List Call) (pieces : List Bytes)
      → parse_whole ops k view ≡ some (r, k', calls)
      → parse_on continue k (view ∷ pieces) ≡ add_calls calls (parse_on r k' pieces)
  unfolding parse_all
  parse_on-piece k k' view continue calls pieces e =
      ap (λ p. parse_next ops p (λ k''. parse_all ops k'' pieces)) e
  parse_on-piece k k' view done calls pieces e =
      ap (λ p. parse_next ops p (λ k''. parse_all ops k'' pieces)) e
      ∙ ap (λ cs. some (done, k', cs)) (sym (append-nil calls))
  parse_on-piece k k' view error calls pieces e =
      ap (λ p. parse_next ops p (λ k''. parse_all ops k'' pieces)) e
      ∙ ap (λ cs. some (error, k', cs)) (sym (append-nil calls))

  pub ChunkedDone-later :
      (expected num : ℕ) (r : Result) (k k' : Codex) (stream view rest : Bytes) (calls : List Call)
      (run : Run Drained)
      → stream ≡ view ++ rest
      → parse_whole ops k view ≡ some (r, k', calls)
      → ChunkedDone expected (num + length (bytes_of calls)) r k' rest run
      → ChunkedDone expected num continue k stream run
  unfolding flatten
  ChunkedDone-later expected num r k k' stream view rest calls (returned ((n, errata), s)) e p t =
      record {
        pieces = view ∷ t.pieces;
        in_order =
            e
            ∙ ap (λ v. view ++ v) t.in_order
            ∙ sym (append_assoc view (flatten t.pieces) (pending s.reads));
        result = t.result;
        codex = t.codex;
        calls = calls ++ t.calls;
        parsed = parse_on-piece k k' view r calls t.pieces p ∙ ap (add_calls calls) t.parsed;
        counted = omega (
          arith,
          t.counted,
          ap length (bytes_of-append calls t.calls),
          length-append (bytes_of calls) (bytes_of t.calls),
        );
        complete = t.complete;
      }
  ChunkedDone-later expected num r k k' stream view rest calls blocked e p t = tt
  ChunkedDone-later expected num r k k' stream view rest calls unfinished e p
        (pieces, later, order, stuck) =
      (
        view ∷ pieces,
        later,
        e ∙ ap (λ v. view ++ v) order ∙ sym (append_assoc view (flatten pieces) later),
        parse_on-piece k k' view r calls pieces p ∙ ap (add_calls calls) stuck,
      )
  ChunkedDone-later expected num r k k' stream view rest calls aborted e p t = t
  ChunkedDone-later expected num r k k' stream view rest calls out_of_bounds e p t = tt
