-- ===== src/Tests/Session.antt =====
-- The operations of a session on concrete sockets.
use proxy_verifier.Base.{Bytes, true, List, [], ◌∷◌, ◌++◌, some, ◌≡◌, refl, codes, arith}
use proxy_verifier.Rules.Search.{find_text}
use proxy_verifier.Session.HeaderEnd.{HeadersDone, read_headers_lem}
use proxy_verifier.Session.Headers.{http_eoh, read_headers}
use proxy_verifier.Session.Reading.{pending, ReadsSome, read-Reads}
use proxy_verifier.Session.Run.{returned}
use proxy_verifier.Session.Socket.{
  ReadOutcome, bytes, end_of_file, would_block, ready, timed_out, accepts, write_would_block,
  Session, read, write,
}
use proxy_verifier.Session.Writing.{WritesSome, write-Writes, write-Returns}

-- Bytes in two parts, the second after a wait, then the end of the file.
abbrev pub session_with : List ReadOutcome → Session
session_with outcomes = record {
  is_open = true;
  body_offset = 0;
  reads = outcomes;
  polls = ready ∷ ready ∷ [];
  writes = accepts 3 ∷ write_would_block ∷ accepts 10 ∷ accepts 10 ∷ accepts 10 ∷ accepts 10 ∷ [];
  sent = [];
}

abbrev two_parts : Session
two_parts =
    session_with (bytes (codes "abcd") ∷ would_block ∷ bytes (codes "ef") ∷ end_of_file ∷ [])

part_read :
    read two_parts 3
    ≡ some (
      (some (codes "abc"), []),
      session_with (bytes (codes "d") ∷ would_block ∷ bytes (codes "ef") ∷ end_of_file ∷ []),
    )
unfolding read
part_read = refl

read-Reads_example : ReadsSome two_parts 3 (read two_parts 3)
read-Reads_example = read-Reads two_parts 3

-- The socket takes three of the bytes, is waited for, and takes the others.
write-Writes_example : WritesSome two_parts (codes "hello") (write two_parts (codes "hello"))
write-Writes_example = write-Writes two_parts (codes "hello")

abbrev patient : Session
patient = record two_parts { polls = ready ∷ ready ∷ ready ∷ ready ∷ ready ∷ timed_out ∷ [] }

write-Returns_example : (r : _) × (write patient (codes "hello") ≡ some r)
write-Returns_example = write-Returns patient (codes "hello") (omega arith) (omega arith)

-- A header whose end is cut by the socket, and a byte of the body behind it.
abbrev cut_header : Session
cut_header = session_with (
    bytes (codes "GET / HTTP/1.1" ++ (b'\r' ∷ b'\n' ∷ b'\r' ∷ []))
    ∷ would_block
    ∷ bytes (b'\n' ∷ codes "x")
    ∷ [])

abbrev keep : Bytes → Bytes
keep w = w

header_end :
    read_headers 100 keep 100 cut_header []
    ≡ returned (
      (some 18, []),
      record (session_with []) { polls = ready ∷ [] },
      codes "GET / HTTP/1.1" ++ http_eoh ++ codes "x",
    )
unfolding read_headers read find_text
header_end = refl

read_headers_example :
    HeadersDone (pending cut_header.reads) (read_headers 100 keep 100 cut_header [])
read_headers_example = read_headers_lem 100 keep cut_header ((λ e. cc), ((λ e. cc), tt))
