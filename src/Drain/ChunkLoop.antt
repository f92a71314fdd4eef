-- ===== src/Drain/ChunkLoop.antt =====
-- The loop of `drain_body` over chunked data, round by round.
use mathlib.Core.List.{flatten}
use proxy_verifier.Base.{
  ℕ, zero, suc, ◌+◌, ◌-◌, ◌<◌, Bytes, Bool, true, false, ◌&&◌, [], ◌∷◌, ◌++◌, Option, none, some,
  ltb, leb, ◌==◌, ◌≡◌, ◌≢◌, ◌⊎◌, refl, sym, ap, ◌∙◌, inl, inr, append-nil, length, length-append,
  arith, if◌then◌else◌,
}
use proxy_verifier.Chunk.Codex.{ChunkOps, Codex, Result, continue, done, error, Parsed, parse}
use proxy_verifier.Chunk.Segments.{parse_next, parse_all}
use proxy_verifier.Chunk.Turns.{bytes_of}
use proxy_verifier.Drain.Body.{
  Drained, with_notes, with_underrun, parse_whole, parse_read, chunked_drained, chunk_parsed,
  chunk_read, drain_chunked, next_buffer, max_drain_buffer_size,
}
use proxy_verifier.Drain.Chunked.{
  parse_on, ChunksTaken, ChunkedDone, with_notes-ChunkedDone, ChunkedDone-later,
}
use proxy_verifier.Session.Errata.{Errata, Rv, diag, is_ok}
use proxy_verifier.Session.Reading.{
  pending, bytes_read, Reads, ReadsSome, read-Reads, PollsWell, WellRead, read-WellRead,
}
use proxy_verifier.Session.Run.{Run, returned, out_of_bounds}
use proxy_verifier.Session.Socket.{Session, Received, read}

module _ (ops : ChunkOps) where
  -- A result with nothing behind it.
  parse_on_nil : (r : Result) (k : Codex) → parse_on ops r k [] ≡ some (r, k, [])
  unfolding parse_all
  parse_on_nil continue k = refl
  parse_on_nil done k = refl
  parse_on_nil error k = refl

  chunked_drained-ChunkedDone :
      (expected num : ℕ) (r : Result) (k : Codex) (s : Session) (underrun : Bool)
      → ChunkedDone ops expected num r k
          (pending s.reads)
          (returned (with_underrun underrun (chunked_drained expected r num s)))
  unfolding chunked_drained flatten
  chunked_drained-ChunkedDone expected num r k s underrun = by_case r underrun
    where
      taken :
          (r' : Result) (n : ℕ) (errata : Errata)
          → n ≡ num
          → (is_ok errata ≡ true → (r' ≡ done) ⊎ (num ≡ expected))
          → ChunksTaken ops expected num r' k (pending s.reads) num errata s
      taken r' n errata e h = record {
        pieces = [];
        in_order = refl;
        result = r';
        codex = k;
        calls = [];
        parsed = parse_on_nil r' k;
        counted = omega arith;
        complete = h;
      }

      by_case :
          (r' : Result) (b : Bool)
          → ChunkedDone ops expected num r' k
              (pending s.reads)
              (returned (with_underrun b (chunked_drained expected r' num s)))
      by_case done true = taken done num _ refl (λ h. inl refl)
      by_case done false = taken done num _ refl (λ h. inl refl)
      by_case continue true = taken continue num _ refl (λ h. ground (arith, h))
      by_case continue false = taken continue num _ refl (λ h. inr (ground (arith, h)))
      by_case error true = taken error num _ refl (λ h. ground (arith, h))
      by_case error false = taken error num _ refl (λ h. inr (ground (arith, h)))

  parse_read_lem : (k : Codex) (view : Bytes) → parse_read ops k view ≡ parse_whole ops k view
  unfolding parse
  parse_read_lem k [] = refl
  parse_read_lem k (c ∷ cs) = refl

  chunk_parsed-ChunkedDone :
      (expected num : ℕ) (k : Codex) (stream view : Bytes) (s : Session)
      (again : ℕ → Result → Codex → Run Drained) (p : Option Parsed)
      → stream ≡ view ++ pending s.reads
      → parse_whole ops k view ≡ p
      → ((num' : ℕ) (r : Result) (k' : Codex)
          → s.is_open ≡ true
          → ChunkedDone ops expected num' r k' (pending s.reads) (again num' r k'))
      → ChunkedDone ops expected num continue k stream (chunk_parsed ops expected num s again p)
  unfolding chunk_parsed flatten parse_all
  chunk_parsed-ChunkedDone expected num k stream view s again none e p on = (
    view ∷ [],
    pending s.reads,
    e ∙ ap (λ v. v ++ pending s.reads) (sym (append-nil view)),
    ap (λ o. parse_next ops o (λ k'. parse_all ops k' [])) p,
  )
  chunk_parsed-ChunkedDone expected num k stream view s again (some (r, k', calls)) e p on =
      ChunkedDone-later ops expected num r k k' stream view (pending s.reads) calls _ e p
        (by_test s.is_open refl)
    where
      num' : ℕ
      num' = num + length (bytes_of calls)

      by_test :
          (b : Bool)
          → s.is_open ≡ b
          → ChunkedDone ops expected num' r k' (pending s.reads) (
              if b
              then again num' r k'
              else returned (with_underrun (ltb num' expected) (chunked_drained expected r num' s)))
      by_test true h = on num' r k' h
      by_test false h = chunked_drained-ChunkedDone expected num' r k' s (ltb num' expected)

  chunk_read-ChunkedDone :
      (expected num old_size size : ℕ) (k : Codex) (s : Session)
      (again : ℕ → ℕ → Result → Codex → Session → Run Drained) (o : Option (Rv Received × Session))
      → ReadsSome s size o
      → WellRead o
      → ((num' stored : ℕ) (r : Result) (k' : Codex) (s' : Session) (view : Bytes)
          → view ≢ []
          → pending s.reads ≡ view ++ pending s'.reads
          → PollsWell s'
          → ChunkedDone ops expected num' r k' (pending s'.reads) (again num' stored r k' s'))
      → ChunkedDone ops expected num continue k
          (pending s.reads)
          (chunk_read ops expected num old_size k again o)
  unfolding chunk_read
  chunk_read-ChunkedDone expected num old_size size k s again none reads well on = tt
  chunk_read-ChunkedDone expected num old_size size k s again (some ((out, dropped), s')) reads well
        on =
      chunk_parsed-ChunkedDone expected num k (pending s.reads) (bytes_read out) s' _
        (parse_read ops k (bytes_read out)) reads.in_order (sym (parse_read_lem k (bytes_read out)))
        (λ num' r k' is_on.
          on num' (old_size + length (bytes_read out)) r k' s' (bytes_read out)
            (some_bytes out reads well.0 is_on) reads.in_order well.1)
    where
      some_bytes :
          (o : Received)
          → Reads s size o s'
          → (o ≡ none → s'.is_open ≡ false)
          → s'.is_open ≡ true
          → bytes_read o ≢ []
      some_bytes none h w e empty = ground (arith, w refl, e)
      some_bytes (some view) h w e empty = ground (arith, h.empty_closes (ap some empty), e)

  pub drain_chunked-ChunkedDone :
      (fuel expected buff num stored : ℕ) (r : Result) (k : Codex) (s : Session)
      → length (pending s.reads) < fuel
      → PollsWell s
      → ChunkedDone ops expected num r k
          (pending s.reads)
          (drain_chunked ops fuel expected buff r k s num stored)
  unfolding drain_chunked
  drain_chunked-ChunkedDone fuel expected buff num stored done k s enough well =
      chunked_drained-ChunkedDone expected num done k s false
  drain_chunked-ChunkedDone fuel expected buff num stored error k s enough well =
      chunked_drained-ChunkedDone expected num error k s false
  drain_chunked-ChunkedDone zero expected buff num stored continue k s enough well =
      absurd (omega (arith, enough))
  drain_chunked-ChunkedDone (suc fuel) expected buff num stored continue k s enough well =
      let buff' = (next_buffer buff stored).0 in
      let old_size = (next_buffer buff stored).1 in
      let size = buff' - old_size in
      let again = λ (num' stored' : ℕ) (r : Result) (k' : Codex) (s' : Session).
        drain_chunked ops fuel expected buff' r k' s' num' stored' in
      let notes : Errata =
        if leb buff stored && buff == max_drain_buffer_size then diag ∷ [] else [] in
      let more = chunk_read ops expected num old_size k again (read s size) in
      elim (ltb buff' old_size)
        as (λ b.
          ChunkedDone ops expected num continue k (pending s.reads)
            (if b then out_of_bounds else with_notes notes more)) [
              | true ↦ tt
              | false ↦
                  with_notes-ChunkedDone ops notes expected num continue k (pending s.reads) more (
                    chunk_read-ChunkedDone expected num old_size size k s again (read s size)
                      (read-Reads s size) (read-WellRead s size well)
                      (λ num' stored' r k' s' view ne order well'.
                        drain_chunked-ChunkedDone fuel expected buff' num' stored' r k' s'
                          (fewer view ne s' order) well'))
            ]
    where
      fewer :
          (view : Bytes)
          → view ≢ []
          → (s' : Session) → pending s.reads ≡ view ++ pending s'.reads
          → length (pending s'.reads) < fuel
      fewer [] ne s' order = absurd (ne refl)
      fewer (c ∷ cs) ne s' order =
          omega (arith, ap length order, length-append cs (pending s'.reads))
