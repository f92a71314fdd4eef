-- ===== src/Replay/FieldSteps.antt =====
-- What an entry adds to the fields, in `parse_fields_and_rules`.
use proxy_verifier.Base.{
  Bytes, Bool, true, false, is_empty, List, [], ◌∷◌, ◌++◌, Option, none, some, ◌≡◌, refl, codes,
  map, tolower,
}
use proxy_verifier.Fields.Defs.{HttpFields, add_fields}
use proxy_verifier.Replay.FieldRules.{
  named, add_values, emplace_or, field_scalar, field_values, map_value, field_directive, field_for,
  field_map, field_entry,
}
use proxy_verifier.Replay.Rules.{
  Reading, note, emplace_rule, Directive, is_nocase_node, directive_of,
}
use proxy_verifier.Replay.Yaml.{null, scalar, sequence, mapping, YamlOps}
use proxy_verifier.Session.Errata.{Severity, info}
use proxy_verifier.Rules.Defs.{RuleCheck}
use proxy_verifier.Rules.Factory.{
  equality_field, equality_values, make_field_rule, make_duplicate_rule,
}
use proxy_verifier.Swoc.{TextOps}

-- The same fields, whatever the rules.
pub record SameFields (a b : HttpFields) : Type 0 where
  pub same_map : a.fields ≡ b.fields
  pub same_sequence : a.fields_sequence ≡ b.fields_sequence
  pub same_parts : a.url_parts ≡ b.url_parts

abbrev pub same : (h : HttpFields) → SameFields h h
same h = record { same_map = refl; same_sequence = refl; same_parts = refl }

module _ (ops : TextOps) {Node : Type 0} (yaml : YamlOps Node) where
  -- The values of a node: a scalar is one, a sequence lists them.
  abbrev pub values_in : Node → List Bytes
  values_in node = elim (yaml.kind node) [
    | scalar ↦ yaml.text node ∷ []
    | sequence ↦ map yaml.text (yaml.elements node)
    | mapping ↦ []
    | null ↦ []
  ]

  -- The values of a map.
  abbrev pub values_at : Option Node → List Bytes
  values_at none = []
  values_at (some v) = values_in v

  -- Those of an entry, where a map has them under `value`.
  abbrev pub field_values_of : Node → List Bytes
  field_values_of node = elim (yaml.kind node) [
    | scalar ↦ yaml.text node ∷ []
    | sequence ↦ map yaml.text (yaml.elements node)
    | mapping ↦ (elim (yaml.member node (codes "value")) [ none ↦ [] | some v ↦ values_in v ])
    | null ↦ []
  ]

  -- Those of two or three elements, with the name that they stand under.
  abbrev pub entry_fields : List Node → List (Bytes × Bytes)
  entry_fields (key ∷ value ∷ []) = named (map tolower (yaml.text key)) (field_values_of value)
  entry_fields (key ∷ value ∷ rule_type ∷ []) =
      named (map tolower (yaml.text key)) (field_values_of value)
  entry_fields _ = []

  -- The fields that a list of entries gives, without those that are malformed.
  abbrev pub fields_of : List Node → List (Bytes × Bytes)
  fields_of [] = []
  fields_of (node ∷ nodes) =
      (elim (yaml.kind node) [
        | sequence ↦ entry_fields (yaml.elements node)
        | scalar ↦ []
        | mapping ↦ []
        | null ↦ []
      ])
      ++ fields_of nodes

  emplace_or-SameFields :
      (silent : Bool) (name : Bytes) (rule : Option RuleCheck) (r : Reading)
      → SameFields (emplace_or ops yaml silent name rule r).fields r.fields
  unfolding emplace_rule
  emplace_or-SameFields true name none r = same r.fields
  emplace_or-SameFields false name none r = same r.fields
  emplace_or-SameFields silent name (some rule) r = record {
    same_map = refl;
    same_sequence = refl;
    same_parts = refl;
  }

  -- Values behind which a rule is set, or none.
  abbrev Added : Bytes → List Bytes → Reading → Reading → Type 0
  Added name values r r' = SameFields r'.fields (add_fields ops r.fields (named name values))

  field_scalar-Added :
      (name value : Bytes) (t : Option Node) (assume : Bool) (r : Reading)
      → Added name (value ∷ []) r (field_scalar ops yaml name value t assume r)
  unfolding field_scalar
  field_scalar-Added name value none true r =
      emplace_or-SameFields false name (some (equality_field name value false false))
        (add_values ops yaml name (value ∷ []) r)
  field_scalar-Added name value none false r = same _
  field_scalar-Added name value (some t) assume r =
      emplace_or-SameFields false name (make_field_rule ops name value (yaml.text t) false false)
        (add_values ops yaml name (value ∷ []) r)

  field_values-Added :
      (name : Bytes) (values : List Bytes) (t : Option Node) (assume : Bool) (r : Reading)
      → Added name values r (field_values ops yaml name values t assume r)
  unfolding field_values
  field_values-Added name values none true r =
      emplace_or-SameFields false name (some (equality_values name values false false))
        (add_values ops yaml name values r)
  field_values-Added name values none false r = same _
  field_values-Added name values (some t) assume r =
      emplace_or-SameFields false name
        (make_duplicate_rule ops name values (yaml.text t) false false)
        (add_values ops yaml name values r)

  map_value-Added :
      (name : Bytes) (d : Directive) (nocase : Bool) (o : Option Node) (r : Reading)
      → Added name (values_at o) r (map_value ops yaml name d nocase o r)
  unfolding map_value add_fields
  map_value-Added name d nocase none r =
      emplace_or-SameFields (is_empty d.rule_type) name
        (make_field_rule ops name [] d.rule_type d.is_inverted nocase) r
  map_value-Added name d nocase (some v) r =
      let silent = is_empty d.rule_type in
      elim (yaml.kind v)
        as (λ k.
          SameFields
            (elim k as (λ k'. Reading) [
              | scalar ↦
                  emplace_or ops yaml silent name
                    (make_field_rule ops name (yaml.text v) d.rule_type d.is_inverted nocase)
                    (add_values ops yaml name (yaml.text v ∷ []) r)
              | sequence ↦
                  let values = map yaml.text (yaml.elements v) in
                  emplace_or ops yaml silent name
                    (make_duplicate_rule ops name values d.rule_type d.is_inverted nocase)
                    (add_values ops yaml name values r)
              | null ↦ emplace_or ops yaml silent name none r
              | mapping ↦ emplace_or ops yaml silent name none r
            ]).fields
            (add_fields ops r.fields (
              named name (elim k as (λ k'. List Bytes) [
                | scalar ↦ yaml.text v ∷ []
                | sequence ↦ map yaml.text (yaml.elements v)
                | mapping ↦ []
                | null ↦ []
              ])))) [
                | scalar ↦
                    emplace_or-SameFields silent name _
                      (add_values ops yaml name (yaml.text v ∷ []) r)
                | sequence ↦
                    emplace_or-SameFields silent name _
                      (add_values ops yaml name (map yaml.text (yaml.elements v)) r)
                | null ↦ emplace_or-SameFields silent name none r
                | mapping ↦ emplace_or-SameFields silent name none r
              ]

  field_for-Added :
      (name : Bytes) (node : Node) (o : Option Directive) (r : Reading)
      → Added name
          (values_at (yaml.member node (codes "value")))
          r
          (field_for ops yaml name node o r)
  unfolding field_for field_directive
  field_for-Added name node none r =
      map_value-Added name (record { rule_type = []; is_inverted = false })
        (is_nocase_node ops yaml node) (yaml.member node (codes "value")) (note info r)
  field_for-Added name node (some d) r =
      map_value-Added name d (is_nocase_node ops yaml node) (yaml.member node (codes "value")) r

  pub field_entry-SameFields :
      (key value : Node) (t : Option Node) (assume : Bool) (r : Reading)
      → Added
          (map tolower (yaml.text key))
          (field_values_of value)
          r
          (field_entry ops yaml key value t assume r)
  unfolding field_entry field_map add_fields
  field_entry-SameFields key value t assume r =
      let name = map tolower (yaml.text key) in
      elim (yaml.kind value)
        as (λ k.
          Added name
            (elim k as (λ k'. List Bytes) [
              | scalar ↦ yaml.text value ∷ []
              | sequence ↦ map yaml.text (yaml.elements value)
              | mapping ↦ values_at (yaml.member value (codes "value"))
              | null ↦ []
            ])
            r
            (elim k as (λ k'. Reading) [
              | scalar ↦ field_scalar ops yaml name (yaml.text value) t assume r
              | sequence ↦
                  field_values ops yaml name (map yaml.text (yaml.elements value)) t assume r
              | mapping ↦ field_map ops yaml name value assume r
              | null ↦ note Severity.error r
            ])) [
              | scalar ↦ field_scalar-Added name (yaml.text value) t assume r
              | sequence ↦ field_values-Added name (map yaml.text (yaml.elements value)) t assume r
              | mapping ↦ field_for-Added name value (directive_of ops yaml value assume) r
              | null ↦ same r.fields
            ]
