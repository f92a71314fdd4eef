-- ===== src/Tests/Transaction.antt =====
-- Transactions over concrete sockets.
use proxy_verifier.Base.{
  Bytes, Bool, true, [], ◌∷◌, ◌++◌, ◌≡◌, refl, codes, is_space, tolower, if◌then◌else◌,
}
use proxy_verifier.Base.{none, false}
use proxy_verifier.Session.Socket.{close}
use proxy_verifier.Base.{some, Option}
use proxy_verifier.Transaction.Receiving.{
  Received, ReceivedIf, read_and_parse_request, read_and_parse_request_lem,
}
use proxy_verifier.Base.{false}
use proxy_verifier.Message.Defs.{
  HttpHeader, new_header, update_content_length, update_transfer_encoding,
}
use proxy_verifier.Multimap.Ops.{equal_range, emplace, equivalent}
use proxy_verifier.Session.Errata.{is_ok}
use proxy_verifier.Session.Run.{Run, returned, blocked, unfinished, aborted, out_of_bounds}
use proxy_verifier.Session.Socket.{bytes, accepts, Session, read}
use proxy_verifier.Tests.Chunk.{chunk_ops}
use proxy_verifier.Tests.Message.{message_ops, line_ops, request}
use proxy_verifier.Tests.Session.{session_with}
use proxy_verifier.Transaction.Looping.{Connecting, Turn, run_transactions}
use proxy_verifier.Transaction.Replaying.{ReplayedIf, run_transaction_lem}
use proxy_verifier.Transaction.Running.{Txn, Setting, Ended, run_transaction}

abbrev setting : Setting
setting = record {
  ops = message_ops;
  chunk_ops = chunk_ops;
  generated = codes "0000000 0000001 ";
  commit_error = λ w. w;
  fuel = 99;
}

abbrev txn : Txn
txn = record { req = request; rsp = record new_header { status = 200 } }

abbrev eol : Bytes
eol = b'\r' ∷ b'\n' ∷ []

abbrev response_text : Bytes
response_text =
    codes "HTTP/1.1 200 OK" ++ eol ++ codes "Content-Length: 2" ++ eol ++ eol ++ codes "hi"

abbrev client : Session
client = record (session_with (bytes response_text ∷ [])) { writes = accepts 99 ∷ accepts 99 ∷ [] }

abbrev verdict_of : Run Ended → Run (Bool × Bool)
verdict_of (returned (errata, s)) = returned (is_ok errata, s.is_open)
verdict_of blocked = blocked
verdict_of unfinished = unfinished
verdict_of aborted = aborted
verdict_of out_of_bounds = out_of_bounds

replayed : verdict_of (run_transaction setting txn client) ≡ returned (true, true)
unfolding run_transaction read line_ops is_space update_transfer_encoding equal_range
    update_content_length tolower emplace equivalent
replayed = refl

run_transaction_example : ReplayedIf setting txn client (run_transaction setting txn client)
run_transaction_example = run_transaction_lem setting txn client

-- A response with three bytes of content and no length.
abbrev response : HttpHeader
response = record new_header {
  status = 200;
  content_size = 3;
  http_version = codes "1.1";
  reason = codes "OK";
}

-- A response with the status 100 that comes in one read with the response behind it: the bytes behind
-- the first header are dropped, and the second header is waited for.
abbrev continued : Session
continued = record client {
  reads = bytes (codes "HTTP/1.1 100 Continue" ++ eol ++ eol ++ response_text) ∷ [];
}

response_lost : verdict_of (run_transaction setting txn continued) ≡ blocked
unfolding run_transaction read line_ops is_space
response_lost = refl

-- A transaction on the open session, and one on a new connection.
abbrev connecting : Connecting
connecting = record {
  socket_opens = true;
  endpoint = none;
  binds = true;
  reuses = true;
  connects = true;
  unblocks = true;
  connected = [];
  socket = client;
}

abbrev turn : Turn
turn = record { txn = txn; connecting = connecting; late = false }

reconnected :
    verdict_of (run_transactions setting (turn ∷ []) [] (close client)) ≡ returned (true, true)
unfolding run_transactions close read line_ops is_space update_transfer_encoding equal_range
    update_content_length tolower emplace equivalent
reconnected = refl

-- A request on a socket of the server.
abbrev server : Session
server = session_with (bytes (codes "GET /a HTTP/1.1" ++ eol ++ codes "Host: h" ++ eol ++ eol) ∷ [])

read_and_parse_request_example : ReceivedIf setting (read_and_parse_request setting 200 server [])
read_and_parse_request_example = read_and_parse_request_lem setting 200 server []

abbrev url_received : Run Received → Option Bytes
url_received (returned ((some h, errata), s, w)) = if is_ok errata then some h.url else none
url_received (returned ((none, errata), s, w)) = none
url_received blocked = none
url_received unfinished = none
url_received aborted = none
url_received out_of_bounds = none

request_received : url_received (read_and_parse_request setting 200 server []) ≡ some (codes "/a")
unfolding read_and_parse_request read line_ops is_space
request_received = refl
