-- ===== src/Tests/Replay.antt =====
-- Nodes of a replay file, and the theorems on its reading at them.
use proxy_verifier.Base.{
  ℕ, ◌+◌, ◌&&◌, ◌==◌, Bytes, Bool, true, false, List, [], ◌∷◌, Option, none, some, ◌≡◌, refl, codes,
  tolower, lex, arith, if◌then◌else◌,
}
use proxy_verifier.Fields.Defs.{no_fields, add_fields, add_field}
use proxy_verifier.Fields.Received.{IsConsistent}
use proxy_verifier.Message.Defs.{HttpHeader, new_header}
use proxy_verifier.Multimap.Ops.{emplace, equal_range, equivalent, less}
use proxy_verifier.Replay.Accepting.{parse_fields_and_rules-accepts}
use proxy_verifier.Replay.Content.{populate_http_message}
use proxy_verifier.Replay.FieldRules.{parse_fields_and_rules}
use proxy_verifier.Replay.FieldSteps.{SameFields}
use proxy_verifier.Replay.FieldsKept.{parse_fields_and_rules-SameFields}
use proxy_verifier.Replay.Load.{Handler, root, load_replay_file}
use proxy_verifier.Replay.Loading.{load_replay_file-Loads}
use proxy_verifier.Replay.Faultless.{has_whole_pseudos, populate_http_message-accepted}
use proxy_verifier.Replay.Populate.{fields_node}
use proxy_verifier.Replay.Accepted.{accepts}
use proxy_verifier.Replay.Populated.{IsPopulated, populate_http_message-IsPopulated}
use proxy_verifier.Replay.Protocol.{closed, Loads}
use proxy_verifier.Replay.Pseudo.{process_pseudo_headers}
use proxy_verifier.Replay.PseudoKinds.{process_pseudo_headers_iff}
use proxy_verifier.Replay.PseudoSteps.{members_of}
use proxy_verifier.Replay.Sessions.{
  read_alpn, parse_alpn_protocols_node, read_alpn-parse_alpn_protocols_node,
}
use proxy_verifier.Replay.Yaml.{NodeKind, null, scalar, sequence, mapping, YamlOps}
use proxy_verifier.Session.Errata.{is_ok, info}
use proxy_verifier.Rules.Search.{find_text}
use proxy_verifier.Url.Parse.{find}
use proxy_verifier.Tests.Message.{line_ops, message_ops}
use proxy_verifier.Tests.Text.{text_ops, text_laws}

-- A sequence is `item` and `no_items`, a map is `at` and `no_members`.
data Node : Type 0 where
  nothing : Node
  word : Bytes → Node
  item : Node → Node → Node
  no_items : Node
  at : Bytes → Node → Node → Node
  no_members : Node

abbrev node_kind : Node → NodeKind
node_kind nothing = null
node_kind (word w) = scalar
node_kind (item n more) = sequence
node_kind no_items = sequence
node_kind (at key n more) = mapping
node_kind no_members = mapping

abbrev node_text : Node → Bytes
node_text (word w) = w
node_text _ = []

abbrev node_elements : Node → List Node
node_elements (item n more) = n ∷ node_elements more
node_elements _ = []

abbrev same_bytes : Bytes → Bytes → Bool
same_bytes [] [] = true
same_bytes (c ∷ a) (d ∷ b) = (c == d) && same_bytes a b
same_bytes _ _ = false

abbrev node_member : Node → Bytes → Option Node
node_member (at key n more) name =
    let later = node_member more name in if same_bytes key name then some n else later
node_member _ name = none

abbrev yaml : YamlOps Node
yaml = record { kind = node_kind; text = node_text; elements = node_elements; member = node_member }

-- `[ Host, h ]` and `[ Via, { value: [ a, b ], as: equal } ]`
abbrev host_node : Node
host_node = item (word (codes "Host")) (item (word (codes "h")) no_items)

abbrev via_node : Node
via_node = item (word (codes "Via")) (
    item
      (at (codes "value") (item (word (codes "a")) (item (word (codes "b")) no_items))
        (at (codes "as") (word (codes "Equal")) no_members))
      no_items)

abbrev fields_list : Node
fields_list = item host_node (item via_node no_items)

-- The same with a directive that is not known.
abbrev bad_list : Node
bad_list = item host_node (
    item (item (word (codes "X")) (item (word (codes "y")) (item (word (codes "like")) no_items)))
      no_items)

parse_fields_and_rules-SameFields_example :
    let after = (parse_fields_and_rules text_ops yaml fields_list no_fields true).fields in
    SameFields after (
      add_fields text_ops no_fields
        ((codes "host", codes "h") ∷ (codes "via", codes "a") ∷ (codes "via", codes "b") ∷ []))
    × (IsConsistent text_ops no_fields → IsConsistent text_ops after)
unfolding tolower
parse_fields_and_rules-SameFields_example =
    parse_fields_and_rules-SameFields text_ops yaml text_laws fields_list no_fields true

parse_fields_and_rules-accepts_example :
    is_ok (parse_fields_and_rules text_ops yaml bad_list no_fields true).errata ≡ false
unfolding lex tolower
parse_fields_and_rules-accepts_example =
    parse_fields_and_rules-accepts text_ops text_laws yaml bad_list no_fields true

-- A request with the four pseudo headers.
abbrev pseudo_message : HttpHeader
unfolding add_fields add_field emplace less lex tolower
pseudo_message = record new_header {
  fields_rules = add_fields text_ops no_fields (
      (codes ":method", codes "GET")
      ∷ (codes ":scheme", codes "https")
      ∷ (codes ":authority", codes "h")
      ∷ (codes ":path", codes "/")
      ∷ []);
}

abbrev all_parsed : Bytes → Bytes
all_parsed text = text

process_pseudo_headers_example :
    (is_ok (process_pseudo_headers message_ops all_parsed pseudo_message).errata ≡ true)
    × (members_of (process_pseudo_headers message_ops all_parsed pseudo_message).message
        ≡ (codes "GET", (codes "https", (codes "h", codes "/"))))
unfolding equal_range equivalent less lex tolower add_fields add_field emplace
process_pseudo_headers_example = process_pseudo_headers_iff message_ops all_parsed pseudo_message

-- A request node with fields and a URL.
abbrev request_node : Node
request_node = at (codes "method") (word (codes "GET")) (
    at (codes "url") (word (codes "/a"))
      (at (codes "headers") (at (codes "fields") fields_list no_members) no_members))

populate_http_message_example :
    IsPopulated text_ops
      ((codes "host", codes "h") ∷ (codes "via", codes "a") ∷ (codes "via", codes "b") ∷ [])
      new_header
      (populate_http_message message_ops all_parsed
        (λ digits. 0)
        yaml
        request_node
        new_header).message
unfolding lex tolower
populate_http_message_example =
    populate_http_message-IsPopulated message_ops text_laws all_parsed (λ digits. 0) yaml
      request_node new_header

-- A handler that counts the nodes of messages, and a file with one session of one transaction.
abbrev counting : Handler Node ℕ
counting = record {
  file_open = λ n. (n, []);
  file_close = λ n. (n, []);
  configure = λ fields n. n;
  ssn_open = λ node n. (n, []);
  ssn_close = λ n. (n, []);
  txn_open = λ node n. (n, []);
  txn_close = λ n. (n, []);
  client_request = λ node n. (n + 1, []);
  proxy_request = λ node n. (n + 1, []);
  server_response = λ node n. (n + 1, []);
  proxy_response = λ node n. (n + 1, []);
  apply_to_all_messages = λ fields n. (n, info ∷ []);
}

abbrev file_node : Node
file_node =
    at (codes "sessions")
      (item
        (at (codes "transactions")
          (item
            (at (codes "client-request") request_node
              (at (codes "server-response") no_members no_members))
            no_items)
          no_members)
        no_items)
      no_members

load_replay_file_example :
    Loads text_ops yaml counting (root file_node) closed 0 closed (2, info ∷ [])
unfolding lex load_replay_file
load_replay_file_example = load_replay_file-Loads text_ops yaml counting (root file_node) 0

-- A node with two protocols.
abbrev tls_node : Node
tls_node =
    at (codes "alpn-protocols") (item (word (codes "h2")) (item (word (codes "http/1.1")) no_items))
      no_members

read_alpn_example :
    ((parse_alpn_protocols_node yaml tls_node).1 ≡ [])
    × (read_alpn 2 (parse_alpn_protocols_node yaml tls_node).0
        ≡ some (codes "h2" ∷ codes "http/1.1" ∷ []))
read_alpn_example =
    read_alpn-parse_alpn_protocols_node yaml tls_node
      (item (word (codes "h2")) (item (word (codes "http/1.1")) no_items)) refl refl
      (omega arith, (omega arith, tt))

populate_http_message-accepted_example :
    ((n : Node)
      → fields_node message_ops all_parsed yaml request_node ≡ some n
      → accepts yaml (yaml.elements n) false ≡ true)
    × (has_whole_pseudos message_ops
          (populate_http_message message_ops all_parsed
            (λ digits. 0)
            yaml
            request_node
            new_header).message
        ≡ true)
unfolding populate_http_message equal_range line_ops tolower lex equivalent less emplace find
    find_text
populate_http_message-accepted_example =
    populate_http_message-accepted message_ops text_laws all_parsed (λ digits. 0) yaml request_node
      new_header refl
