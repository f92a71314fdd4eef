-- ===== src/Drain/WholeChunked.antt =====
-- `drain_body` as a whole, for chunked data.
use mathlib.Core.List.{flatten}
use proxy_verifier.Base.{ℕ, Bytes, true, List, ◌∷◌, ◌++◌, none, some, ◌≡◌, ◌⊎◌, length}
use proxy_verifier.Chunk.Codex.{ChunkOps, Codex, new_codex, Call, Result, done}
use proxy_verifier.Chunk.Segments.{parse_all}
use proxy_verifier.Chunk.Turns.{bytes_of}
use proxy_verifier.Drain.Body.{Drained}
use proxy_verifier.Session.Errata.{Errata, is_ok}
use proxy_verifier.Session.Reading.{pending}
use proxy_verifier.Session.Run.{Run, returned, blocked, unfinished, aborted, out_of_bounds}
use proxy_verifier.Session.Socket.{Session}

module _ (ops : ChunkOps) where
  -- What `drain_body` may come to on chunked data from `initial` and a stream: the count is that of
  -- the bytes that `parse` gives for the data, and without an error the coding is complete or the
  -- count is the expected one.
  pub record ChunkedBody (expected : ℕ) (initial stream : Bytes) (num : ℕ) (errata : Errata)
      (s' : Session) : Type 0 where
    pub pieces : List Bytes
    pub in_order : stream ≡ flatten pieces ++ pending s'.reads
    pub result : Result
    pub codex : Codex
    pub calls : List Call
    pub parsed : parse_all ops new_codex (initial ∷ pieces) ≡ some (result, codex, calls)
    pub counted : num ≡ length (bytes_of calls)
    pub complete : (result ≡ done) ⊎ (num ≡ expected)

  abbrev pub BodyDone : ℕ → Bytes → Bytes → Run Drained → Type 0
  BodyDone expected initial stream (returned ((num, errata), s')) =
      is_ok errata ≡ true → ChunkedBody expected initial stream num errata s'
  BodyDone expected initial stream unfinished =
      (pieces : List Bytes) × (rest : Bytes) × (stream ≡ flatten pieces ++ rest)
      × (parse_all ops new_codex (initial ∷ pieces) ≡ none)
  BodyDone expected initial stream blocked = Unit
  BodyDone expected initial stream aborted = Unit
  BodyDone expected initial stream out_of_bounds = Unit
