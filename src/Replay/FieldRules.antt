-- ===== src/Replay/FieldRules.antt =====
-- `YamlParser::parse_fields_and_rules`, the loop of `parse_url_rules`, and `parse_global_rules`.
use proxy_verifier.Base.{
  Bytes, Bool, false, List, [], ◌∷◌, Option, none, some, codes, map, tolower, is_empty,
  if◌then◌else◌,
}
use proxy_verifier.Fields.Defs.{HttpFields, add_fields}
use proxy_verifier.Replay.Rules.{
  Reading, note, emplace_rule, Directive, is_nocase_node, directive_of, url_entry,
}
use proxy_verifier.Replay.Yaml.{null, scalar, sequence, mapping, YamlOps}
use proxy_verifier.Rules.Defs.{RuleCheck}
use proxy_verifier.Rules.Factory.{
  equality_field, equality_values, make_field_rule, make_duplicate_rule,
}
use proxy_verifier.Session.Errata.{Severity, info, is_ok}
use proxy_verifier.Swoc.{TextOps}

-- Fields of one name.
abbrev pub named : Bytes → List Bytes → List (Bytes × Bytes)
named name values = map (λ v. (name, v)) values

module _ (ops : TextOps) {Node : Type 0} (yaml : YamlOps Node) where
  abbrev pub emplace_or : Bool → Bytes → Option RuleCheck → Reading → Reading
  emplace_or silent name none r = if silent then r else note Severity.error r
  emplace_or silent name (some rule) r = record r { fields = emplace_rule ops name rule r.fields }

  -- `add_field` for each of the values.
  abbrev pub add_values : Bytes → List Bytes → Reading → Reading
  add_values name values r = record r { fields = add_fields ops r.fields (named name values) }

  -- A scalar, with the third element of the rule, if there is one.
  unfoldable pub field_scalar : Bytes → Bytes → Option Node → Bool → Reading → Reading
  unfolding add_fields emplace_rule equality_field make_field_rule
  field_scalar name value none assume r =
      let added = add_values name (value ∷ []) r in
      if assume
      then emplace_or false name (some (equality_field name value false false)) added
      else added
  field_scalar name value (some t) assume r =
      emplace_or false name (make_field_rule ops name value (yaml.text t) false false)
        (add_values name (value ∷ []) r)

  -- A sequence of values.
  unfoldable pub field_values : Bytes → List Bytes → Option Node → Bool → Reading → Reading
  unfolding add_fields emplace_rule equality_values make_duplicate_rule
  field_values name values none assume r =
      let added = add_values name values r in
      if assume
      then emplace_or false name (some (equality_values name values false false)) added
      else added
  field_values name values (some t) assume r =
      emplace_or false name (make_duplicate_rule ops name values (yaml.text t) false false)
        (add_values name values r)

  -- The value of a map, if it has one.
  unfoldable pub map_value : Bytes → Directive → Bool → Option Node → Reading → Reading
  unfolding add_fields emplace_rule make_field_rule make_duplicate_rule
  map_value name d nocase none r =
      emplace_or (is_empty d.rule_type) name
        (make_field_rule ops name [] d.rule_type d.is_inverted nocase) r
  map_value name d nocase (some v) r = elim (yaml.kind v) [
    | scalar ↦
        emplace_or (is_empty d.rule_type) name
          (make_field_rule ops name (yaml.text v) d.rule_type d.is_inverted nocase)
          (add_values name (yaml.text v ∷ []) r)
    | sequence ↦
        let values = map yaml.text (yaml.elements v) in
        emplace_or (is_empty d.rule_type) name
          (make_duplicate_rule ops name values d.rule_type d.is_inverted nocase)
          (add_values name values r)
    | null ↦ emplace_or (is_empty d.rule_type) name none r
    | mapping ↦ emplace_or (is_empty d.rule_type) name none r
  ]

  -- The rule of a map, for its directive; without a directive a missing rule is no error.
  unfoldable pub field_directive : Bytes → Node → Directive → Reading → Reading
  unfolding map_value is_nocase_node
  field_directive name node d r =
      map_value name d (is_nocase_node ops yaml node) (yaml.member node (codes "value")) r

  unfoldable pub field_for : Bytes → Node → Option Directive → Reading → Reading
  unfolding field_directive
  field_for name node none r =
      field_directive name node (record { rule_type = []; is_inverted = false }) (note info r)
  field_for name node (some d) r = field_directive name node d r

  unfoldable pub field_map : Bytes → Node → Bool → Reading → Reading
  unfolding field_for directive_of
  field_map name node assume r = field_for name node (directive_of ops yaml node assume) r

  -- A field or rule of two or three elements.
  unfoldable pub field_entry : Node → Node → Option Node → Bool → Reading → Reading
  unfolding field_scalar field_values field_map
  field_entry key value rule_type assume r =
      let name = map tolower (yaml.text key) in
      elim (yaml.kind value) [
        | scalar ↦ field_scalar name (yaml.text value) rule_type assume r
        | sequence ↦ field_values name (map yaml.text (yaml.elements value)) rule_type assume r
        | mapping ↦ field_map name value assume r
        | null ↦ note Severity.error r
      ]

  -- An entry is a sequence of length 2 or 3.
  abbrev pub entry :
      (Node → Node → Option Node → Bool → Reading → Reading) → List Node → Bool → Reading → Reading
  entry handle (key ∷ value ∷ []) assume r = handle key value none assume r
  entry handle (key ∷ value ∷ rule_type ∷ []) assume r = handle key value (some rule_type) assume r
  entry handle _ assume r = note Severity.error r

  unfoldable pub parse_entry :
      (Node → Node → Option Node → Bool → Reading → Reading) → Node → Bool → Reading → Reading
  parse_entry handle node assume r = elim (yaml.kind node) [
    | sequence ↦ entry handle (yaml.elements node) assume r
    | scalar ↦ note Severity.error r
    | mapping ↦ note Severity.error r
    | null ↦ note Severity.error r
  ]

  abbrev pub parse_entries :
      (Node → Node → Option Node → Bool → Reading → Reading) → List Node → Bool → Reading → Reading
  parse_entries handle [] assume r = r
  parse_entries handle (node ∷ nodes) assume r =
      parse_entries handle nodes assume (parse_entry handle node assume r)

  -- `YamlParser::parse_url_rules`
  unfoldable pub parse_url_rules : Node → HttpFields → Bool → Reading
  unfolding parse_entry url_entry
  parse_url_rules node fields assume =
      parse_entries (url_entry ops yaml) (yaml.elements node) assume
        (record { fields = fields; errata = [] })

  -- `YamlParser::parse_fields_and_rules`
  unfoldable pub parse_fields_and_rules : Node → HttpFields → Bool → Reading
  unfolding parse_entry field_entry
  parse_fields_and_rules node fields assume =
      parse_entries field_entry (yaml.elements node) assume
        (record { fields = fields; errata = [] })

  -- The rules of a list that is not empty.
  abbrev pub global_rules : Node → HttpFields → List Node → Reading
  global_rules node fields [] = record { fields = fields; errata = info ∷ [] }
  global_rules node fields (n ∷ nodes) =
      let result = parse_fields_and_rules node fields false in
      record result { errata = if is_ok result.errata then [] else Severity.error ∷ result.errata }

  -- `YamlParser::parse_global_rules`
  unfoldable pub parse_global_rules : Node → HttpFields → Reading
  unfolding parse_fields_and_rules
  parse_global_rules node fields = elim (yaml.member node (codes "fields")) [
    | none ↦ record { fields = fields; errata = info ∷ [] }
    | some rules ↦ (elim (yaml.kind rules) [
      | sequence ↦ global_rules rules fields (yaml.elements rules)
      | scalar ↦ record { fields = fields; errata = info ∷ [] }
      | mapping ↦ record { fields = fields; errata = info ∷ [] }
      | null ↦ record { fields = fields; errata = info ∷ [] }
    ])
  ]
