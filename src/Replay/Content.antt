-- ===== src/Replay/Content.antt =====
-- The content of `YamlParser::populate_http_message`, and the function as a whole.
use proxy_verifier.Base.{
  ℕ, Bytes, true, false, [], ◌∷◌, ◌++◌, Option, none, some, codes, ◌==◌, is_eq, length,
  if◌then◌else◌,
}
use proxy_verifier.Localizer.Encoded.{decode_uri}
use proxy_verifier.Message.Codec.{MessageOps, derive_key}
use proxy_verifier.Message.Defs.{HttpHeader}
use proxy_verifier.Replay.Populate.{
  Populated, set_message, complain, put_version, put_stream_id, put_status, put_reason, put_method,
  put_url, put_scheme, fields_node, put_fields, put_pseudo, put_authority,
}
use proxy_verifier.Replay.Yaml.{null, scalar, sequence, mapping, YamlOps}
use proxy_verifier.Session.Errata.{Severity, diag}

module _ (ops : MessageOps) (parsed : Bytes → Bytes) (svto_radix : Bytes → ℕ) {Node : Type 0}
    (yaml : YamlOps Node) where
  -- The coding that the content is sent in.
  unfoldable pub put_transfer : Node → Populated → Populated
  put_transfer content p = elim (yaml.member content (codes "transfer")) [
    | none ↦ p
    | some n ↦
        if is_eq (ops.text.strcasecmp (codes "chunked") (yaml.text n))
        then set_message (record p.message { chunked_p = true }) p
        else if is_eq (ops.text.strcasecmp (codes "plain") (yaml.text n))
        then set_message (record p.message { chunked_p = false }) p
        else complain Severity.error p
  ]

  -- The recorded size; a size from the fields stays, and another one is noted.
  unfoldable pub put_size : ℕ → Populated → Populated
  put_size size p =
      let h = record p.message { recorded_content_size = size } in
      if h.content_length_p
      then record {
        message = h;
        errata = if h.content_size == size then p.errata else p.errata ++ (diag ∷ []);
      }
      else set_message (record h { content_size = size }) p

  abbrev pub put_text : Bytes → Populated → Populated
  put_text text p =
      put_size (length text) (set_message (record p.message { content_data = some text }) p)

  -- The text of the data, in the encoding of its node.
  unfoldable pub put_data : Option Node → Bytes → Populated → Populated
  unfolding put_size decode_uri
  put_data none text p = put_text text p
  put_data (some encoding) text p =
      if is_eq (ops.text.strcasecmp (codes "uri") (yaml.text encoding))
      then put_text (decode_uri svto_radix text) p
      else if is_eq (ops.text.strcasecmp (codes "plain") (yaml.text encoding))
      then put_text text p
      else put_text text (complain Severity.error p)

  -- The data, or the size of content that is made up.
  unfoldable pub put_body : Option Node → Option Node → Option Node → Populated → Populated
  unfolding put_data put_size
  put_body (some content) size encoding p = put_data encoding (yaml.text content) p
  put_body none (some size) encoding p = put_size (ops.svtou (yaml.text size)) p
  put_body none none encoding p = complain Severity.error p

  unfoldable pub put_content : Option Node → Populated → Populated
  unfolding put_transfer put_body
  put_content none p = p
  put_content (some content) p = elim (yaml.kind content) [
    | mapping ↦
        put_body (yaml.member content (codes "data")) (yaml.member content (codes "size"))
          (yaml.member content (codes "encoding")) (put_transfer content p)
    | scalar ↦ complain Severity.error p
    | sequence ↦ complain Severity.error p
    | null ↦ complain Severity.error p
  ]

  -- What stands before the fields of a message.
  unfoldable pub put_start : Node → Populated → Populated
  unfolding put_version put_stream_id put_status put_reason put_method put_url put_scheme
  put_start node p = put_scheme ops parsed yaml node (
      put_url ops parsed yaml (yaml.member node (codes "url")) (
        put_method ops parsed yaml node (
          put_reason ops parsed yaml node (
            put_status ops parsed yaml node
              (put_stream_id ops parsed yaml node (put_version ops parsed yaml node p))))))

  -- `YamlParser::populate_http_message`
  unfoldable pub populate_http_message : Node → HttpHeader → Populated
  unfolding put_start put_fields put_pseudo put_authority put_content derive_key
  populate_http_message node h =
      let started = put_start node (record { message = h; errata = [] }) in
      let fields =
        put_pseudo ops parsed yaml
          (put_fields ops parsed yaml (fields_node ops parsed yaml node) started) in
      let p =
        put_content (yaml.member node (codes "content")) (put_authority ops parsed yaml fields) in
      set_message (derive_key ops p.message) p
