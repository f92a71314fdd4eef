-- ===== src/Replay/Load.antt =====
-- `YamlParser::load_replay_file`, with the virtual functions of `ReplayFileHandler` as operations.
-- That the file is read, parsed and merged is given; the elements of a node are what a loop over it
-- gives.
use proxy_verifier.Base.{Bytes, List, [], ◌∷◌, ◌++◌, Option, none, some, codes, if◌then◌else◌}
use proxy_verifier.Fields.Defs.{HttpFields, no_fields}
use proxy_verifier.Multimap.Ops.{Multimap}
use proxy_verifier.Replay.FieldRules.{parse_global_rules}
use proxy_verifier.Replay.Rules.{Reading}
use proxy_verifier.Replay.Yaml.{null, scalar, sequence, mapping, YamlOps}
use proxy_verifier.Session.Errata.{Errata, Severity, diag, info, is_ok, Rv}
use proxy_verifier.Swoc.{TextOps}

-- `ReplayFileHandler`, on a state of its own; `configure` sets `global_config`.
pub record Handler (Node S : Type 0) : Type 0 where
  pub file_open : S → Rv S
  pub file_close : S → Rv S
  pub configure : HttpFields → S → S
  pub ssn_open : Node → S → Rv S
  pub ssn_close : S → Rv S
  pub txn_open : Node → S → Rv S
  pub txn_close : S → Rv S
  pub client_request : Node → S → Rv S
  pub proxy_request : Node → S → Rv S
  pub server_response : Node → S → Rv S
  pub proxy_response : Node → S → Rv S
  pub apply_to_all_messages : HttpFields → S → Rv S

-- What comes of the file: it cannot be read, it is not YAML, or it has a root.
pub data Loaded (Node : Type 0) : Type 0 where
  unreadable malformed : Loaded Node
  root : Node → Loaded Node

module _ (ops : TextOps) {Node S : Type 0} (yaml : YamlOps Node) (handler : Handler Node S) where
  -- A call behind others, whose messages are noted.
  abbrev pub then_call : Rv S → (S → Rv S) → Rv S
  then_call (s, errata) f = let (s', more) = f s in (s', errata ++ more)

  abbrev pub nothing : S → Rv S
  nothing s = (s, [])

  -- A call for a node that may not be there.
  abbrev pub call_for : Option Node → (Node → S → Rv S) → S → Rv S
  call_for none f = nothing
  call_for (some n) f = f n

  -- The fields under `all`, for every message of a transaction.
  abbrev pub all_headers : Option Node → Option Node
  all_headers none = none
  all_headers (some all) = yaml.member all (codes "headers")

  abbrev pub all_fields : Option Node → Reading
  all_fields none = record { fields = no_fields; errata = [] }
  all_fields (some headers) = parse_global_rules ops yaml headers no_fields

  abbrev pub apply_all : HttpFields → Multimap Bytes → S → Rv S
  apply_all fields [] = nothing
  apply_all fields (field ∷ more) = handler.apply_to_all_messages fields

  -- The calls for a transaction that is opened.
  unfoldable pub load_messages : Node → Rv S → Rv S
  load_messages node opened =
      let reading = all_fields (all_headers (yaml.member node (codes "all"))) in
      let r0 : Rv S = (opened.0, opened.1 ++ reading.errata) in
      let r1 =
        then_call r0
          (call_for (yaml.member node (codes "client-request")) handler.client_request) in
      let r2 =
        then_call r1 (call_for (yaml.member node (codes "proxy-request")) handler.proxy_request) in
      let r3 =
        then_call r2
          (call_for (yaml.member node (codes "server-response")) handler.server_response) in
      let r4 =
        then_call r3
          (call_for (yaml.member node (codes "proxy-response")) handler.proxy_response) in
      let r5 = then_call r4 (apply_all reading.fields reading.fields.fields) in
      then_call r5 handler.txn_close

  -- A turn of the loop over the transactions, with the messages for the session. A transaction that
  -- could not be opened is read all the same.
  unfoldable pub load_transaction : Node → S → Rv S
  unfolding load_messages
  load_transaction node s =
      let opened = handler.txn_open node s in
      let (s', errata) = load_messages node opened in
      let refused = if is_ok opened.1 then [] else Severity.error ∷ [] in
      (s', refused ++ (if is_ok errata then errata else errata ++ (Severity.error ∷ [])))

  abbrev pub load_transactions : List Node → S → Rv S
  load_transactions [] s = (s, [])
  load_transactions (node ∷ nodes) s = then_call (load_transaction node s) (load_transactions nodes)

  abbrev pub empty_note : List Node → Errata
  empty_note [] = info ∷ []
  empty_note (n ∷ ns) = []

  -- What is said of the list of transactions.
  abbrev pub list_notes : Node → Errata
  list_notes node =
      let is_list = elim (yaml.kind node) as (λ k. Errata) [
        | sequence ↦ []
        | scalar ↦ Severity.error ∷ []
        | mapping ↦ Severity.error ∷ []
        | null ↦ Severity.error ∷ []
      ] in
      is_list ++ empty_note (yaml.elements node)

  -- A session that is opened; without a list of transactions it is not closed, and its messages are lost.
  unfoldable pub load_opened : Option Node → Rv S → Rv S
  unfolding load_transaction
  load_opened none (s, errata) = (s, Severity.error ∷ [])
  load_opened (some txns) (s, errata) =
      then_call (then_call (s, errata ++ list_notes txns) (load_transactions (yaml.elements txns)))
        handler.ssn_close

  -- A turn of the loop over the sessions.
  unfoldable pub load_session : Node → S → Rv S
  unfolding load_opened
  load_session node s =
      let opened = handler.ssn_open node s in
      let loaded = load_opened (yaml.member node (codes "transactions")) opened in
      if is_ok opened.1 then loaded else (opened.0, opened.1 ++ (Severity.error ∷ []))

  abbrev pub load_sessions : List Node → S → Rv S
  load_sessions [] s = (s, [])
  load_sessions (node ∷ nodes) s = then_call (load_session node s) (load_sessions nodes)

  -- The rules for the whole file.
  abbrev pub global_node : Option Node → Option Node
  global_node none = none
  global_node (some meta) = yaml.member meta (codes "global-field-rules")

  abbrev pub meta_note : Option Node → Errata
  meta_note none = info ∷ []
  meta_note (some meta) = []

  abbrev pub sessions_of : List Node → S → Rv S
  sessions_of [] s = (s, diag ∷ [])
  sessions_of (n ∷ ns) s = load_sessions (n ∷ ns) s

  -- The list of sessions.
  unfoldable pub load_list : Option Node → S → Rv S
  unfolding load_session
  load_list none s = (s, Severity.error ∷ [])
  load_list (some list) s = elim (yaml.kind list) [
    | sequence ↦ sessions_of (yaml.elements list) s
    | scalar ↦ (s, Severity.error ∷ [])
    | mapping ↦ (s, Severity.error ∷ [])
    | null ↦ (s, Severity.error ∷ [])
  ]

  unfoldable pub load_root : Loaded Node → S → Rv S
  unfolding load_list parse_global_rules
  load_root unreadable s = (s, Severity.error ∷ [])
  load_root malformed s = (s, Severity.error ∷ [])
  load_root (root node) s =
      let meta = yaml.member node (codes "meta") in
      let reading = all_fields (global_node meta) in
      then_call (handler.configure reading.fields s, meta_note meta ++ reading.errata)
        (load_list (yaml.member node (codes "sessions")))

  -- `YamlParser::load_replay_file`: what closing the file says is not part of the result.
  unfoldable pub load_replay_file : Loaded Node → S → Rv S
  unfolding load_root
  load_replay_file file s =
      let opened = handler.file_open s in
      let result = if is_ok opened.1 then then_call opened (load_root file) else opened in
      ((handler.file_close result.0).0, result.1)
