-- ===== src/Tests/Drain.antt =====
-- Bodies drained from concrete sockets.
use proxy_verifier.Base.{true, [], ◌∷◌, ◌++◌, ◌≡◌, refl, is_xdigit, codes, length, arith}
use proxy_verifier.Chunk.Codex.{new_codex, continue, http_eol, parse, digit_value, hex_value_from}
use proxy_verifier.Drain.Body.{drain_length, drain_chunked, drain_open, drain_body, buffer_size}
use proxy_verifier.Drain.Bounds.{AtMost, drain_length-AtMost}
use proxy_verifier.Drain.Buffer.{InBounds, drain_chunked-InBounds, drain_chunked_overflow}
use proxy_verifier.Drain.Length.{LengthDone}
use proxy_verifier.Drain.Whole.{initial_of, drain_body-LengthDone}
use proxy_verifier.Message.Defs.{HttpHeader, new_header}
use proxy_verifier.Session.Errata.{diag}
use proxy_verifier.Session.Reading.{pending}
use proxy_verifier.Session.Run.{returned, out_of_bounds, aborted}
use proxy_verifier.Session.Socket.{bytes, ready, would_block, Session, read}
use proxy_verifier.Tests.Chunk.{chunk_ops}
use proxy_verifier.Tests.Session.{session_with}

-- Two bytes behind the header, of five; one more byte waits behind the body.
abbrev body_session : Session
body_session = record (session_with (bytes (codes "cd") ∷ would_block ∷ bytes (codes "eX") ∷ [])) {
  body_offset = 4;
}

drained :
    drain_body chunk_ops 9 new_header 5 body_session (codes "headab")
    ≡ returned (
      (5, diag ∷ []),
      record (session_with (bytes (codes "X") ∷ [])) { body_offset = 4; polls = ready ∷ [] },
    )
unfolding drain_body drain_open parse is_xdigit read hex_value_from digit_value
drained = refl

drain_body-LengthDone_example :
    LengthDone 5
      (length (initial_of body_session (codes "headab")))
      (pending body_session.reads)
      (drain_body chunk_ops 9 new_header 5 body_session (codes "headab"))
drain_body-LengthDone_example =
    drain_body-LengthDone chunk_ops 9 5 new_header body_session (codes "headab") refl refl
      (omega arith) ((λ e. cc), ((λ e. cc), tt))

drain_length-AtMost_example : AtMost 5 (drain_length 9 5 5 body_session 2 2)
drain_length-AtMost_example = drain_length-AtMost 9 5 2 body_session (omega arith) (omega arith)

-- The first bytes of a chunk are read with the header.
abbrev chunked_header : HttpHeader
chunked_header = record new_header { chunked_p = true; has_transfer_encoding_chunked = true }

abbrev chunked_session : Session
chunked_session = session_with (
    bytes (b'\n' ∷ codes "789")
    ∷ bytes (codes "01" ++ http_eol ++ codes "0" ++ http_eol ++ http_eol)
    ∷ [])

chunks_drained :
    drain_body chunk_ops 99 chunked_header 5 chunked_session (codes "5" ++ (b'\r' ∷ []))
    ≡ returned ((5, diag ∷ []), session_with [])
unfolding drain_body drain_open parse is_xdigit read hex_value_from digit_value
chunks_drained = refl

drain_chunked-InBounds_example :
    InBounds (drain_chunked chunk_ops 9 5 5 continue new_codex chunked_session 0 2)
drain_chunked-InBounds_example =
    drain_chunked-InBounds chunk_ops 9 5 5 0 2 continue new_codex chunked_session (omega arith)
      (omega arith)

drain_chunked_overflow_example :
    drain_chunked chunk_ops 1 1048577
      (buffer_size true 1048577)
      continue
      new_codex
      chunked_session
      1048000
      1048626
    ≡ out_of_bounds
drain_chunked_overflow_example =
    drain_chunked_overflow chunk_ops 0 1048577 1048000 1048626 new_codex chunked_session
      (omega arith) (omega arith)

-- A chunked body that is expected to be empty, of which nothing came with the header, fails the
-- assertion.
empty_aborts : drain_body chunk_ops 9 chunked_header 0 chunked_session [] ≡ aborted
unfolding drain_body drain_open parse is_xdigit read hex_value_from digit_value
empty_aborts = refl
