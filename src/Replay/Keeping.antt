-- ===== src/Replay/Keeping.antt =====
-- The steps of `populate_http_message` that keep the fields.
use proxy_verifier.Base.{ℕ, Bool, Bytes, List, [], Option, none, some, ◌≡◌, refl, ◌∙◌, codes, arith}
use proxy_verifier.Message.Codec.{MessageOps, derive_key}
use proxy_verifier.Message.Defs.{HttpHeader, find_field}
use proxy_verifier.Multimap.Ops.{Multimap}
use proxy_verifier.Replay.Content.{
  put_transfer, put_size, put_data, put_body, put_content, put_start,
}
use proxy_verifier.Replay.FieldRules.{parse_url_rules}
use proxy_verifier.Replay.Populate.{
  Populated, put_version, put_stream_id, put_status, put_reason, put_method, put_url, put_scheme,
  put_pseudo, put_authority,
}
use proxy_verifier.Replay.Pseudo.{process_pseudo_headers}
use proxy_verifier.Replay.Yaml.{YamlOps}
use proxy_verifier.Url.Parse.{parse_url}
use proxy_verifier.Replay.Tables.{view, Keeps, Keeps-trans, kept_by, pseudos-Keeps, table-entries}

abbrev table : Populated → (Multimap Bytes × List (Bytes × Bytes)) × (ℕ × Bool)
table p = view p.message

module _ (ops : MessageOps) (parsed : Bytes → Bytes) (svto_radix : Bytes → ℕ) {Node : Type 0}
    (yaml : YamlOps Node) where
  table-version :
      (node : Node) (p : Populated) → table (put_version ops parsed yaml node p) ≡ table p
  unfolding put_version
  table-version node p = ground arith

  table-stream :
      (node : Node) (p : Populated) → table (put_stream_id ops parsed yaml node p) ≡ table p
  unfolding put_stream_id
  table-stream node p = ground arith

  status-Keeps :
      (node : Node) (p : Populated) → Keeps p.message (put_status ops parsed yaml node p).message
  unfolding put_status
  status-Keeps node p = record {
    same_table = ground arith;
    in_range = λ h. ground arith;
    same_strictness = ground arith;
  }

  table-reason : (node : Node) (p : Populated) → table (put_reason ops parsed yaml node p) ≡ table p
  unfolding put_reason
  table-reason node p = ground arith

  table-method : (node : Node) (p : Populated) → table (put_method ops parsed yaml node p) ≡ table p
  unfolding put_method
  table-method node p = ground arith

  table-scheme : (node : Node) (p : Populated) → table (put_scheme ops parsed yaml node p) ≡ table p
  unfolding put_scheme
  table-scheme node p = ground arith

  table-url : (url : Option Node) (p : Populated) → table (put_url ops parsed yaml url p) ≡ table p
  unfolding put_url parse_url parse_url_rules
  table-url none p = refl
  table-url (some n) p = ground (
    arith,
    table-entries ops.text yaml (yaml.elements n) p.message.verify_strictly
        (record { fields = p.message.fields_rules; errata = [] }),
  )

  -- The steps before the fields leave them, and so do those behind.
  pub start-Keeps :
      (node : Node) (p : Populated)
      → Keeps p.message (put_start ops parsed svto_radix yaml node p).message
  unfolding put_start
  start-Keeps node p =
      let p1 = put_version ops parsed yaml node p in
      let p2 = put_stream_id ops parsed yaml node p1 in
      let p3 = put_status ops parsed yaml node p2 in
      let p4 = put_reason ops parsed yaml node p3 in
      let p5 = put_method ops parsed yaml node p4 in
      let p6 = put_url ops parsed yaml (yaml.member node (codes "url")) p5 in
      let before =
        Keeps-trans (kept_by p.message p2.message (table-stream node p1 ∙ table-version node p))
          (status-Keeps node p2) in
      Keeps-trans before (
        kept_by p3.message (put_scheme ops parsed yaml node p6).message (
          table-scheme node p6
          ∙ (table-url (yaml.member node (codes "url")) p5
              ∙ (table-method node p4 ∙ table-reason node p3))))

  pub pseudo-Keeps : (p : Populated) → Keeps p.message (put_pseudo ops parsed yaml p).message
  unfolding put_pseudo process_pseudo_headers
  pseudo-Keeps p =
      let field = find_field ops.text ops.svtou p.message in
      pseudos-Keeps ops parsed (field (codes ":method")) (field (codes ":scheme"))
        (field (codes "host")) (field (codes ":authority")) (field (codes ":path"))
        (field (codes ":status")) p.message

  table-authority : (p : Populated) → table (put_authority ops parsed yaml p) ≡ table p
  unfolding put_authority
  table-authority p = ground arith

  table-size :
      (size : ℕ) (p : Populated) → table (put_size ops parsed svto_radix yaml size p) ≡ table p
  unfolding put_size
  table-size size p = ground arith

  table-data :
      (encoding : Option Node) (text : Bytes) (p : Populated)
      → table (put_data ops parsed svto_radix yaml encoding text p) ≡ table p
  unfolding put_data put_size
  table-data none text p = ground arith
  table-data (some encoding) text p = ground arith

  table-body :
      (content size encoding : Option Node) (p : Populated)
      → table (put_body ops parsed svto_radix yaml content size encoding p) ≡ table p
  unfolding put_body
  table-body (some content) size encoding p = table-data encoding (yaml.text content) p
  table-body none (some size) encoding p = table-size (ops.svtou (yaml.text size)) p
  table-body none none encoding p = refl

  table-transfer :
      (content : Node) (p : Populated)
      → table (put_transfer ops parsed svto_radix yaml content p) ≡ table p
  unfolding put_transfer
  table-transfer content p = ground arith

  table-content :
      (content : Option Node) (p : Populated)
      → table (put_content ops parsed svto_radix yaml content p) ≡ table p
  unfolding put_content
  table-content none p = refl
  table-content (some content) p =
      let transferred = put_transfer ops parsed svto_radix yaml content p in
      ground (
        arith,
        table-transfer content p,
        table-body (yaml.member content (codes "data")) (yaml.member content (codes "size"))
            (yaml.member content (codes "encoding")) transferred,
      )

  pub content-Keeps :
      (content : Option Node) (p : Populated)
      → Keeps p.message
          (put_content ops parsed svto_radix yaml content (put_authority ops parsed yaml p)).message
  content-Keeps content p =
      kept_by p.message
        (put_content ops parsed svto_radix yaml content (put_authority ops parsed yaml p)).message
        (table-content content (put_authority ops parsed yaml p) ∙ table-authority p)

  pub key-Keeps : (h : HttpHeader) → Keeps h (derive_key ops h)
  unfolding derive_key
  key-Keeps h = record {
    same_table = ground arith;
    in_range = λ fits. ground arith;
    same_strictness = ground arith;
  }
