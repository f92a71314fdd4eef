-- ===== src/Replay/FieldsKept.antt =====
-- The fields that `parse_fields_and_rules` adds.
use proxy_verifier.Base.{Bytes, Bool, List, [], ◌∷◌, ◌++◌, none, some, ◌≡◌, refl, ◌∙◌}
use proxy_verifier.Fields.Defs.{HttpFields, add_field, add_fields}
use proxy_verifier.Fields.Received.{IsConsistent, add_fields-IsConsistent}
use proxy_verifier.Replay.FieldRules.{
  field_entry, entry, parse_entry, parse_entries, parse_fields_and_rules,
}
use proxy_verifier.Replay.Rules.{Reading, note}
use proxy_verifier.Replay.Yaml.{null, scalar, sequence, mapping, YamlOps}
use proxy_verifier.Session.Errata.{Severity}
use proxy_verifier.Swoc.{TextOps, TextLaws}
use proxy_verifier.Replay.FieldSteps.{
  SameFields, same, entry_fields, fields_of, field_entry-SameFields,
}

module _ (ops : TextOps) {Node : Type 0} (yaml : YamlOps Node) where
  -- One more field does not see the rules.
  add_fields-SameFields :
      (a b : HttpFields) (seq : List (Bytes × Bytes))
      → SameFields a b
      → SameFields (add_fields ops a seq) (add_fields ops b seq)
  unfolding add_fields
  add_fields-SameFields a b [] s = s
  add_fields-SameFields a b ((name, value) ∷ seq) s =
      add_fields-SameFields (add_field ops a name value) (add_field ops b name value) seq
        (record { same_map = cc; same_sequence = cc; same_parts = s.same_parts })

  add_fields-append :
      (h : HttpFields) (xs ys : List (Bytes × Bytes))
      → add_fields ops h (xs ++ ys) ≡ add_fields ops (add_fields ops h xs) ys
  unfolding add_fields
  add_fields-append h [] ys = refl
  add_fields-append h ((name, value) ∷ xs) ys = add_fields-append (add_field ops h name value) xs ys

  entry-SameFields :
      (es : List Node) (assume : Bool) (r : Reading)
      → SameFields
          (entry ops yaml (field_entry ops yaml) es assume r).fields
          (add_fields ops r.fields (entry_fields ops yaml es))
  unfolding add_fields
  entry-SameFields [] assume r = same r.fields
  entry-SameFields (key ∷ []) assume r = same r.fields
  entry-SameFields (key ∷ value ∷ []) assume r =
      field_entry-SameFields ops yaml key value none assume r
  entry-SameFields (key ∷ value ∷ t ∷ []) assume r =
      field_entry-SameFields ops yaml key value (some t) assume r
  entry-SameFields (key ∷ value ∷ t ∷ u ∷ more) assume r = same r.fields

  parse_entry-SameFields :
      (node : Node) (assume : Bool) (r : Reading)
      → SameFields (parse_entry ops yaml (field_entry ops yaml) node assume r).fields (
          add_fields ops r.fields (elim (yaml.kind node) [
            | sequence ↦ entry_fields ops yaml (yaml.elements node)
            | scalar ↦ []
            | mapping ↦ []
            | null ↦ []
          ]))
  unfolding parse_entry add_fields
  parse_entry-SameFields node assume r =
      elim (yaml.kind node)
        as (λ k.
          SameFields
            (elim k as (λ k'. Reading) [
              | sequence ↦ entry ops yaml (field_entry ops yaml) (yaml.elements node) assume r
              | scalar ↦ note Severity.error r
              | mapping ↦ note Severity.error r
              | null ↦ note Severity.error r
            ]).fields
            (add_fields ops r.fields (elim k as (λ k'. List (Bytes × Bytes)) [
              | sequence ↦ entry_fields ops yaml (yaml.elements node)
              | scalar ↦ []
              | mapping ↦ []
              | null ↦ []
            ]))) [
              | sequence ↦ entry-SameFields (yaml.elements node) assume r
              | scalar ↦ same r.fields
              | mapping ↦ same r.fields
              | null ↦ same r.fields
            ]

  SameFields_trans : {a b c : HttpFields} → SameFields a b → SameFields b c → SameFields a c
  SameFields_trans s t = record {
    same_map = s.same_map ∙ t.same_map;
    same_sequence = s.same_sequence ∙ t.same_sequence;
    same_parts = s.same_parts ∙ t.same_parts;
  }

  parse_entries-SameFields :
      (nodes : List Node) (assume : Bool) (r : Reading)
      → SameFields
          (parse_entries ops yaml (field_entry ops yaml) nodes assume r).fields
          (add_fields ops r.fields (fields_of ops yaml nodes))
  unfolding add_fields
  parse_entries-SameFields [] assume r = same r.fields
  parse_entries-SameFields (node ∷ nodes) assume r =
      let here = parse_entry-SameFields node assume r in
      let front = elim (yaml.kind node) as (λ k. List (Bytes × Bytes)) [
        | sequence ↦ entry_fields ops yaml (yaml.elements node)
        | scalar ↦ []
        | mapping ↦ []
        | null ↦ []
      ] in
      SameFields_trans
        (parse_entries-SameFields nodes assume
          (parse_entry ops yaml (field_entry ops yaml) node assume r))
        (SameFields_trans
          (add_fields-SameFields (parse_entry ops yaml (field_entry ops yaml) node assume r).fields
            (add_fields ops r.fields front) (fields_of ops yaml nodes) here)
          (rw (add_fields-append r.fields front (fields_of ops yaml nodes)) (same _)))

  -- Whatever the rules and the malformed entries are, `parse_fields_and_rules` adds to its fields the
  -- values of every entry, in order, under its name in lower case; the parts of the URL are left, and
  -- fields that were consistent are consistent again.
  pub parse_fields_and_rules-SameFields :
      TextLaws ops
      → (node : Node) (fields : HttpFields) (assume : Bool)
      → let after = (parse_fields_and_rules ops yaml node fields assume).fields in
        SameFields after (add_fields ops fields (fields_of ops yaml (yaml.elements node)))
        × (IsConsistent ops fields → IsConsistent ops after)
  unfolding parse_fields_and_rules
  parse_fields_and_rules-SameFields laws node fields assume =
      let s =
        parse_entries-SameFields (yaml.elements node) assume
          (record { fields = fields; errata = [] }) in
      (
        s,
        λ c.
            consistent s
              (add_fields-IsConsistent laws fields (fields_of ops yaml (yaml.elements node)) c),
      )
    where
      consistent : {a b : HttpFields} → SameFields a b → IsConsistent ops b → IsConsistent ops a
      consistent s c = record {
        sorted = rw s.same_map c.sorted;
        ordered = λ name. rw (s.same_map, s.same_sequence) (c.ordered name);
      }
