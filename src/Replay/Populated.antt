-- ===== src/Replay/Populated.antt =====
-- What `populate_http_message` leaves in a message.
use proxy_verifier.Base.{
  ℕ, ◌≤◌, Bytes, List, [], ◌∷◌, Option, none, some, ◌≡◌, refl, sym, ap, ◌∙◌, subst, codes, arith,
}
use proxy_verifier.Fields.Defs.{HttpFields, add_field, add_fields}
use proxy_verifier.Fields.Received.{IsConsistent, add_fields-IsConsistent}
use proxy_verifier.Message.Codec.{MessageOps, derive_key}
use proxy_verifier.Message.Defs.{HttpHeader, update_content_length, update_transfer_encoding}
use proxy_verifier.Replay.Content.{put_content, put_start, populate_http_message}
use proxy_verifier.Replay.FieldRules.{parse_fields_and_rules}
use proxy_verifier.Replay.FieldSteps.{fields_of, SameFields}
use proxy_verifier.Replay.FieldsKept.{parse_fields_and_rules-SameFields}
use proxy_verifier.Replay.Keeping.{start-Keeps, pseudo-Keeps, content-Keeps, key-Keeps}
use proxy_verifier.Replay.Populate.{
  Populated, fields_node, with_fields, put_fields, put_pseudo, put_authority,
}
use proxy_verifier.Replay.Rules.{Reading}
use proxy_verifier.Replay.Tables.{table_of, Keeps-trans}
use proxy_verifier.Replay.Yaml.{YamlOps}
use proxy_verifier.Swoc.{TextOps, TextLaws}

-- Fields that are added come to the same map and sequence from the same ones.
table-add_fields :
    (ops : TextOps) (a b : HttpFields) (seq : List (Bytes × Bytes))
    → table_of a ≡ table_of b
    → table_of (add_fields ops a seq) ≡ table_of (add_fields ops b seq)
unfolding add_fields add_field
table-add_fields ops a b [] e = e
table-add_fields ops a b ((name, value) ∷ seq) e =
    table-add_fields ops (add_field ops a name value) (add_field ops b name value) seq cc

IsConsistent-table :
    (ops : TextOps) (a b : HttpFields)
    → table_of a ≡ table_of b
    → IsConsistent ops b
    → IsConsistent ops a
IsConsistent-table ops a b e c = record {
  sorted = rw (ap (λ t. t.0) e) c.sorted;
  ordered = λ name. rw (ap (λ t. t.0) e, ap (λ t. t.1) e) (c.ordered name);
}

-- The fields are those that the message had and those of the node, and a status in range stays so.
pub record IsPopulated (ops : TextOps) (declared : List (Bytes × Bytes)) (h h' : HttpHeader)
    : Type 0 where
  pub fields : table_of h'.fields_rules ≡ table_of (add_fields ops h.fields_rules declared)
  pub consistent : IsConsistent ops h.fields_rules → IsConsistent ops h'.fields_rules
  pub status : h.status ≤ 599 → h'.status ≤ 599

module _ (ops : MessageOps) (laws : TextLaws ops.text) (parsed : Bytes → Bytes)
    (svto_radix : Bytes → ℕ) {Node : Type 0} (yaml : YamlOps Node) where
  -- The fields of a node are those of its `headers`.
  abbrev pub fields_in : Option Node → List (Bytes × Bytes)
  fields_in none = []
  fields_in (some fields) = fields_of ops.text yaml (yaml.elements fields)

  framing :
      (reading : Reading) (p : Populated)
      → ((with_fields ops parsed yaml reading p).message.fields_rules ≡ reading.fields)
        × ((with_fields ops parsed yaml reading p).message.status ≡ p.message.status)
  unfolding update_content_length update_transfer_encoding
  framing reading p = (ground arith, ground arith)

  pub put_fields-table :
      (o : Option Node) (p : Populated)
      → (table_of (put_fields ops parsed yaml o p).message.fields_rules
          ≡ table_of (add_fields ops.text p.message.fields_rules (fields_in o)))
        × ((put_fields ops parsed yaml o p).message.status ≡ p.message.status)
  unfolding put_fields add_fields
  put_fields-table none p = (refl, refl)
  put_fields-table (some fields) p =
      let reading =
        parse_fields_and_rules ops.text yaml fields p.message.fields_rules
          p.message.verify_strictly in
      let (same, status) = framing reading p in
      let kept =
        (parse_fields_and_rules-SameFields ops.text yaml laws fields p.message.fields_rules
          p.message.verify_strictly).0 in
      (ap table_of same ∙ equal kept, status)
    where
      equal : {a b : HttpFields} → SameFields a b → table_of a ≡ table_of b
      equal s = rw (s.same_map, s.same_sequence) refl

  -- Whatever else its node holds, and with or without an error, `populate_http_message` adds the values
  -- of the fields of `headers` in their order to the fields of the message, which stay consistent; a
  -- status that is at most 599 is so behind it.
  pub populate_http_message-IsPopulated :
      (node : Node) (h : HttpHeader)
      → IsPopulated ops.text
          (fields_in (fields_node ops parsed yaml node))
          h
          (populate_http_message ops parsed svto_radix yaml node h).message
  unfolding populate_http_message
  populate_http_message-IsPopulated node h =
      let started =
        put_start ops parsed svto_radix yaml node (record { message = h; errata = [] }) in
      let o = fields_node ops parsed yaml node in
      let fielded = put_fields ops parsed yaml o started in
      let pseudo = put_pseudo ops parsed yaml fielded in
      let content = yaml.member node (codes "content") in
      let p =
        put_content ops parsed svto_radix yaml content (put_authority ops parsed yaml pseudo) in
      let k1 = start-Keeps ops parsed svto_radix yaml node (record { message = h; errata = [] }) in
      let (added, same_status) = put_fields-table o started in
      let k2 = Keeps-trans (pseudo-Keeps ops parsed svto_radix yaml fielded) (
        Keeps-trans (content-Keeps ops parsed svto_radix yaml content pseudo)
          (key-Keeps ops parsed svto_radix yaml p.message)) in
      let whole : table_of (derive_key ops p.message).fields_rules
          ≡ table_of (add_fields ops.text h.fields_rules (fields_in o)) =
        k2.same_table
        ∙ (added
            ∙ table-add_fields ops.text started.message.fields_rules h.fields_rules (fields_in o)
                k1.same_table) in
      record {
        fields = whole;
        consistent = λ c.
            IsConsistent-table ops.text (derive_key ops p.message).fields_rules
              (add_fields ops.text h.fields_rules (fields_in o)) whole
              (add_fields-IsConsistent laws h.fields_rules (fields_in o) c);
        status = λ fits. k2.in_range (subst (λ n. n ≤ 599) (sym same_status) (k1.in_range fits));
      }
