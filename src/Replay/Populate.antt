-- ===== src/Replay/Populate.antt =====
-- `YamlParser::populate_http_message`, but for the content of the message.
use proxy_verifier.Base.{
  ◌%◌, ◌^◌, Bytes, true, false, not, ◌&&◌, [], ◌∷◌, ◌++◌, Option, none, some, codes, ltb, ◌==◌,
  is_empty, length, map, tolower, if◌then◌else◌,
}
use proxy_verifier.Message.Codec.{MessageOps}
use proxy_verifier.Message.Defs.{
  HttpHeader, find_field, update_content_length, update_transfer_encoding,
}
use proxy_verifier.Replay.FieldRules.{parse_fields_and_rules, parse_url_rules}
use proxy_verifier.Replay.Pseudo.{is_status_text, with_status, process_pseudo_headers}
use proxy_verifier.Replay.Rules.{Reading}
use proxy_verifier.Replay.Yaml.{null, scalar, sequence, mapping, YamlOps}
use proxy_verifier.Session.Errata.{Errata, Severity, is_ok}
use proxy_verifier.Url.Parse.{parse_url}

-- The message as it is filled, and the messages for the user.
pub record Populated : Type 0 where
  pub message : HttpHeader
  pub errata : Errata

abbrev pub set_message : HttpHeader → Populated → Populated
set_message h p = record p { message = h }

abbrev pub complain : Severity → Populated → Populated
complain severity p = record p { errata = p.errata ++ (severity ∷ []) }

module _ (ops : MessageOps) (parsed : Bytes → Bytes) {Node : Type 0} (yaml : YamlOps Node) where
  -- A member that must be a string, if it is there.
  abbrev pub string_member : Node → Bytes → (Bytes → Populated → Populated) → Populated → Populated
  string_member node key put p = elim (yaml.member node key) [
    | none ↦ p
    | some n ↦ (elim (yaml.kind n) [
      | scalar ↦ put (yaml.text n) p
      | sequence ↦ complain Severity.error p
      | mapping ↦ complain Severity.error p
      | null ↦ complain Severity.error p
    ])
  ]

  unfoldable pub put_version : Node → Populated → Populated
  put_version node p = elim (yaml.member node (codes "version")) [
    | none ↦ set_message (record p.message { http_version = codes "1.1" }) p
    | some n ↦ set_message (record p.message { http_version = map tolower (yaml.text n) }) p
  ]

  -- A positive number, which is stored in an `int32_t`.
  abbrev pub put_stream_number : Bytes → Populated → Populated
  put_stream_number text p =
      if length (parsed text) == length text && ltb 0 (ops.svtou text)
      then set_message (record p.message { stream_id = ops.svtou text % 2 ^ 32 }) p
      else complain Severity.error p

  unfoldable pub put_stream_id : Node → Populated → Populated
  put_stream_id node p = elim (yaml.member node (codes "http2")) [
    | none ↦ p
    | some n ↦ (elim (yaml.kind n) [
      | mapping ↦ string_member n (codes "stream-id") put_stream_number p
      | scalar ↦ complain Severity.error p
      | sequence ↦ complain Severity.error p
      | null ↦ complain Severity.error p
    ])
  ]

  abbrev pub put_status_text : Bytes → Populated → Populated
  put_status_text text p =
      if is_status_text ops parsed text
      then set_message (with_status ops parsed text p.message) p
      else complain Severity.error p

  -- A message with a status is a response, although the status may be no number.
  unfoldable pub put_status : Node → Populated → Populated
  put_status node p = elim (yaml.member node (codes "status")) [
    | none ↦ p
    | some n ↦
        string_member node (codes "status") put_status_text
          (set_message (record p.message { is_request = false }) p)
  ]

  unfoldable pub put_reason : Node → Populated → Populated
  put_reason node =
      string_member node (codes "reason")
        (λ text p. set_message (record p.message { reason = text }) p)

  unfoldable pub put_method : Node → Populated → Populated
  put_method node =
      string_member node (codes "method")
        (λ text p. set_message (record p.message { method = text; is_request = true }) p)

  -- The URL: a text that is parsed, or a list of rules.
  abbrev pub with_url : Bytes → HttpHeader → HttpHeader
  with_url text h =
      let (members, fields_rules) = parse_url h.members h.fields_rules text in
      record h { url = text; members = members; fields_rules = fields_rules }

  abbrev pub with_url_rules : Reading → Populated → Populated
  with_url_rules reading p = record {
    message = record p.message { fields_rules = reading.fields };
    errata = p.errata ++ reading.errata;
  }

  unfoldable pub put_url : Option Node → Populated → Populated
  unfolding parse_url parse_url_rules
  put_url none p = p
  put_url (some n) p = elim (yaml.kind n) [
    | scalar ↦ set_message (with_url (yaml.text n) p.message) p
    | sequence ↦
        with_url_rules
          (parse_url_rules ops.text yaml n p.message.fields_rules p.message.verify_strictly) p
    | mapping ↦ complain Severity.error p
    | null ↦ complain Severity.error p
  ]

  unfoldable pub put_scheme : Node → Populated → Populated
  put_scheme node = string_member node (codes "scheme") (λ text p.
      set_message (record p.message { members = record p.message.members { pseudo_scheme = text } })
        p)

  -- The fields; those without an error tell the framing of the body.
  abbrev pub with_fields : Reading → Populated → Populated
  with_fields reading p =
      let h = record p.message { fields_rules = reading.fields } in
      if is_ok reading.errata
      then set_message
          (update_transfer_encoding ops.text ops.svtou
            (update_content_length ops.text ops.svtou h h.method))
          p
      else record { message = h; errata = p.errata ++ (Severity.error ∷ reading.errata) }

  -- The node of the fields.
  abbrev pub fields_node : Node → Option Node
  fields_node node = elim (yaml.member node (codes "headers")) [
    | none ↦ none
    | some headers ↦ yaml.member headers (codes "fields")
  ]

  unfoldable pub put_fields : Option Node → Populated → Populated
  unfolding parse_fields_and_rules update_content_length update_transfer_encoding
  put_fields none p = p
  put_fields (some fields) p =
      with_fields
        (parse_fields_and_rules ops.text yaml fields p.message.fields_rules
          p.message.verify_strictly)
        p

  unfoldable pub put_pseudo : Populated → Populated
  unfolding process_pseudo_headers
  put_pseudo p =
      let pseudo = process_pseudo_headers ops parsed p.message in
      record { message = pseudo.message; errata = p.errata ++ pseudo.errata }

  abbrev pub with_authority : Option Bytes → HttpHeader → HttpHeader
  with_authority none h = h
  with_authority (some host) h = record h { members = record h.members { pseudo_authority = host } }

  -- The authority of a request is that of its host field, if the URL has none.
  unfoldable pub put_authority : Populated → Populated
  put_authority p =
      let h = p.message in
      if not (is_empty h.method) && is_empty h.members.pseudo_authority
      then set_message (with_authority (find_field ops.text ops.svtou h (codes "host")) h) p
      else p
