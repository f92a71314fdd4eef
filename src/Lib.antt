-- ===== src/Lib.antt =====
-- A verification library for Proxy Verifier, the HTTP proxy test tool of this repository.
--
-- The client and the server of the tool read replay files, send and receive HTTP messages, and
-- check each message that came through the proxy against the rules of the replay file.
--
-- Swoc: what the code takes from libswoc (text comparisons), as a record of operations and one
--   of laws. Both are parameters of the model.
-- Rules (local/include/core/verification.h, local/src/core/verification.cc): Rules.Defs has the
--   classes, Rules.Factory the constructors, `options_init` and `make_rule_check`, Rules.Search the
--   standard searches, Rules.Evaluate the `test` and `test_tv` overrides. The classes are the
--   constructors of `RuleCheck`; `test` and `test_values` are the two virtual `test` functions, and
--   return the result with the rule's part of the diagnostic. `key` is left out of the tests, since
--   only the text of the diagnostic shows it.
-- Multimap (local/include/core/case_insensitive_utils.h): `std::multimap` under
--   `CaseInsensitiveCompare`, a list in key order.
-- Fields (`HttpFields` and `HttpHeader::verify_headers` of local/include/core/http.h and
--   local/src/core/http.cc): Fields.Defs, Fields.Verify.
-- Chunk (`ChunkCodex` of local/include/core/http.h and local/src/core/http.cc): Chunk.Codex has the
--   members and `parse`, Chunk.Transmit `transmit`, Chunk.Segments the calls of `parse` that
--   `drain_body` makes. Chunk.Machine is a machine that takes one byte at a time. The buffer writers
--   and `svtou` of libswoc are operations with laws, the session is a parameter. `parse` takes fuel,
--   and `turns`, three for each byte and two, is enough; a longer loop is `none`. `transmit` takes
--   the length of the text. A count of 0 from `write` stands for a failure too.
-- Url (`HttpHeader::parse_url`): Url.Parse has the function, with positions as 64-bit numbers and
--   `npos` the largest of them. Url.Printed has the text of a URL; Url.Find, Url.Marks, Url.Cuts,
--   Url.Pieces and Url.Inverse the way back.
-- Localizer (local/include/core/Localizer.h, local/src/core/Localizer.cc): Localizer.Names has the
--   set of names and the operations, a failed assertion is `none`; Localizer.Encoded the decoding,
--   with `svto_radix` of libswoc as a parameter.
-- Session (`Session` of local/include/core/http.h and local/src/core/http.cc): Session.Socket has
--   `read`, `write` and `close`, Session.Headers `read_headers`, and Session.Filling the calls of
--   `read` that fill its buffer. What the system calls will give is a list of outcomes in the
--   state; a list at its end is a call that does not come back. Of a message its severity is kept
--   (Session.Errata), and Session.Run has the ways in which a loop over the socket can end. The
--   rounds of `read_headers` are bounded by the size of its buffer, since each but the last adds a
--   byte.
-- Message (`HttpHeader`): Message.Defs has the members and the operations on the framing,
--   Message.Text what the parsers take from libswoc, as operations and laws, and Message.Codec
--   `parse_request`, `parse_response`, `serialize` and the key. The loops over the lines take the
--   length of the text as fuel, since each round takes a byte. Message.Lines and Message.Printed
--   have the facts on lines, Message.RoundTrip the way back.
-- Drain (`Session::drain_body`): Drain.Body. The rounds are bounded by a number of bytes, the
--   expected ones or those that wait at the socket, since each round that does not end the loop
--   takes one. The bytes in the buffer are only printed, so it is modelled by its size.
-- Transaction: Transaction.Sending has `write_body` and `write` of a message, Transaction.Running
--   `run_transaction`, composed of the parts above; an operation that a part has not ended is the
--   end of the transaction too; Transaction.Response has what it is to read a response. A view
--   behind the data of a body is out of bounds. Transaction.Looping has `run_transactions` and
--   `do_connect`, with the outcomes of its system calls as a record and the clock left out,
--   Transaction.Receiving the server's `read_and_parse_request`. A chunked body is written by
--   `transmit` over `write`.
-- Arguments (local/include/core/ArgParser.h, local/src/core/ArgParser.cc): Arguments.Data has the
--   parsed arguments, Arguments.Handling `handle_args`, with 32-bit indices.
--
-- Replay (local/include/core/YamlParser.h, local/src/core/YamlParser.cc): the reading of replay
--   files. Replay.Yaml is the interface to yaml-cpp, which is not part of the repository: a node
--   has a kind, a text, elements and members. Replay.Rules and Replay.FieldRules have
--   `parse_url_rules`, `parse_fields_and_rules` and `parse_global_rules`; Replay.Pseudo
--   `process_pseudo_headers`; Replay.Populate and Replay.Content `populate_http_message`;
--   Replay.Accepted has the entries that are well formed; Replay.Sessions the readers of session
--   nodes; Replay.Load `load_replay_file`, whose handler is a record of operations on a state of
--   its own, and Replay.Protocol the calls that a file asks for, in order. A text that `Localizer`
--   gives for a name or a value is the text itself, in lower case for `localize_lower`, since the
--   names are not frozen while files are read; `parsed` is the text that `svtou` has read.
--
-- Not modelled are TLS, HTTP/2 and HTTP/3, the delays of replay files and their loading by threads,
-- the commands and options of the command line, and the two programs with their handlers.
--
-- Bytes are natural numbers, and the C character functions are those of the "C" locale.
mod Tests
pub mod Arguments
pub mod Base
pub mod Chunk
pub mod Drain
pub mod Fields
pub mod Localizer
pub mod Message
pub mod Multimap
pub mod Replay
pub mod Rules
pub mod Session
pub mod Swoc
pub mod Transaction
pub mod Url
