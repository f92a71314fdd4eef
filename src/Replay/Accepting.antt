-- ===== src/Replay/Accepting.antt =====
-- Which lists of fields and rules `parse_fields_and_rules` takes without an error.
use proxy_verifier.Base.{
  Bytes, Bool, true, false, ◌&&◌, ◌||◌, List, [], ◌∷◌, Option, none, some, ◌≡◌, refl, ap, ◌∙◌,
  codes, map, tolower, is_empty, arith,
}
use proxy_verifier.Fields.Defs.{HttpFields}
use proxy_verifier.Replay.FieldRules.{
  add_values, emplace_or, field_scalar, field_values, map_value, field_directive, field_for,
  field_map, field_entry, entry, parse_entry, parse_entries, parse_fields_and_rules,
}
use proxy_verifier.Replay.Rules.{Reading, note, directive_of, Directive, is_nocase_node}
use proxy_verifier.Replay.Yaml.{YamlOps}
use proxy_verifier.Rules.Defs.{RuleCheck}
use proxy_verifier.Rules.Factory.{
  MakeRule, options, duplicate_field_options, find_option, build, make_field_rule,
  make_duplicate_rule,
}
use proxy_verifier.Session.Errata.{Severity, info, is_ok, is_ok-note}
use proxy_verifier.Swoc.{TextOps, TextLaws}
use proxy_verifier.Replay.Accepted.{
  accepts, accepts_directive, accepts_entry, accepts_map, accepts_node, accepts_type, accepts_value,
  is_directive, one_of,
}

module _ (ops : TextOps) (laws : TextLaws ops) where
  abbrev names_of : {T V : Type 0} → List (Bytes × MakeRule T V) → List Bytes
  names_of = map (λ p. p.0)

  abbrev is_found {ℓ} : {A : Type ℓ} → Option A → Bool
  is_found none = false
  is_found (some a) = true

  find_option-one_of :
      {T V : Type 0} (table : List (Bytes × MakeRule T V)) (t : Bytes)
      → is_found (find_option ops table t) ≡ one_of (names_of table) t
  unfolding find_option
  find_option-one_of [] t = refl
  find_option-one_of ((key, make) ∷ rest) t =
      rw (laws.strcasecmp_lex key t) ground (arith, find_option-one_of rest t)

  is_found-build :
      {T V : Type 0} (o : Option (MakeRule T V)) (target : T) (value : V) (inverted nocase : Bool)
      → is_found (build ops o target value inverted nocase) ≡ is_found o
  unfolding build
  is_found-build none target value inverted nocase = refl
  is_found-build (some make) target value inverted nocase = refl

  make_field_rule-is_directive :
      (name value t : Bytes) (inverted nocase : Bool)
      → is_found (make_field_rule ops name value t inverted nocase) ≡ is_directive t
  unfolding make_field_rule options
  make_field_rule-is_directive name value t inverted nocase =
      is_found-build (find_option ops options t) name value inverted nocase
      ∙ find_option-one_of options t

  make_duplicate_rule-is_directive :
      (name : Bytes) (values : List Bytes) (t : Bytes) (inverted nocase : Bool)
      → is_found (make_duplicate_rule ops name values t inverted nocase) ≡ is_directive t
  unfolding make_duplicate_rule duplicate_field_options
  make_duplicate_rule-is_directive name values t inverted nocase =
      is_found-build (find_option ops duplicate_field_options t) name values inverted nocase
      ∙ find_option-one_of duplicate_field_options t

  module _ {Node : Type 0} (yaml : YamlOps Node) where
    emplace_or-is_ok :
        (silent : Bool) (name : Bytes) (rule : Option RuleCheck) (r : Reading)
        → is_ok (emplace_or ops yaml silent name rule r).errata
          ≡ (is_ok r.errata && (silent || is_found rule))
    emplace_or-is_ok silent name none r = ground (arith, is_ok-note r.errata Severity.error)
    emplace_or-is_ok silent name (some rule) r = ground arith

    -- A rule of one value, and a rule of many.
    field_rule-is_ok :
        (silent : Bool) (name value t : Bytes) (inverted nocase : Bool) (r : Reading)
        → is_ok
            (emplace_or ops yaml silent name
              (make_field_rule ops name value t inverted nocase)
              r).errata
          ≡ (is_ok r.errata && (silent || is_directive t))
    field_rule-is_ok silent name value t inverted nocase r =
        emplace_or-is_ok silent name (make_field_rule ops name value t inverted nocase) r
        ∙ ap (λ b. is_ok r.errata && (silent || b))
            (make_field_rule-is_directive name value t inverted nocase)

    duplicate_rule-is_ok :
        (silent : Bool) (name : Bytes) (values : List Bytes) (t : Bytes) (inverted nocase : Bool)
        (r : Reading)
        → is_ok
            (emplace_or ops yaml silent name
              (make_duplicate_rule ops name values t inverted nocase)
              r).errata
          ≡ (is_ok r.errata && (silent || is_directive t))
    duplicate_rule-is_ok silent name values t inverted nocase r =
        emplace_or-is_ok silent name (make_duplicate_rule ops name values t inverted nocase) r
        ∙ ap (λ b. is_ok r.errata && (silent || b))
            (make_duplicate_rule-is_directive name values t inverted nocase)

    and_true : (b : Bool) → b ≡ (b && true)
    and_true b = ground arith

    field_scalar-is_ok :
        (name value : Bytes) (t : Option Node) (assume : Bool) (r : Reading)
        → is_ok (field_scalar ops yaml name value t assume r).errata
          ≡ (is_ok r.errata && accepts_type yaml t)
    unfolding field_scalar
    field_scalar-is_ok name value none true r = and_true (is_ok r.errata)
    field_scalar-is_ok name value none false r = and_true (is_ok r.errata)
    field_scalar-is_ok name value (some t) assume r =
        field_rule-is_ok false name value (yaml.text t) false false
          (add_values ops yaml name (value ∷ []) r)

    field_values-is_ok :
        (name : Bytes) (values : List Bytes) (t : Option Node) (assume : Bool) (r : Reading)
        → is_ok (field_values ops yaml name values t assume r).errata
          ≡ (is_ok r.errata && accepts_type yaml t)
    unfolding field_values
    field_values-is_ok name values none true r = and_true (is_ok r.errata)
    field_values-is_ok name values none false r = and_true (is_ok r.errata)
    field_values-is_ok name values (some t) assume r =
        duplicate_rule-is_ok false name values (yaml.text t) false false
          (add_values ops yaml name values r)

    map_value-is_ok :
        (name : Bytes) (d : Directive) (nocase : Bool) (o : Option Node) (r : Reading)
        → is_ok (map_value ops yaml name d nocase o r).errata
          ≡ (is_ok r.errata && accepts_directive yaml d.rule_type o)
    unfolding map_value
    map_value-is_ok name d nocase none r =
        ground (
          arith,
          field_rule-is_ok (is_empty d.rule_type) name [] d.rule_type d.is_inverted nocase r,
        )
    map_value-is_ok name d nocase (some v) r =
        let values = map yaml.text (yaml.elements v) in
        let silent = is_empty d.rule_type in
        ground (
          arith,
          field_rule-is_ok silent name (yaml.text v) d.rule_type d.is_inverted nocase
              (add_values ops yaml name (yaml.text v ∷ []) r),
          duplicate_rule-is_ok silent name values d.rule_type d.is_inverted nocase
              (add_values ops yaml name values r),
          emplace_or-is_ok silent name none r,
        )

    directive_accepts : Option Directive → Option Node → Bool
    directive_accepts none o = true
    directive_accepts (some d) o = accepts_directive yaml d.rule_type o

    directive_of_lem :
        (node : Node) (assume : Bool)
        → directive_accepts (directive_of ops yaml node assume) (yaml.member node (codes "value"))
          ≡ accepts_map yaml node assume
    unfolding directive_accepts directive_of
    directive_of_lem node assume = ground arith

    nothing_accepted : (o : Option Node) → accepts_directive yaml [] o ≡ true
    nothing_accepted none = refl
    nothing_accepted (some v) = refl

    field_for-is_ok :
        (name : Bytes) (node : Node) (o : Option Directive) (r : Reading)
        → is_ok (field_for ops yaml name node o r).errata
          ≡ (is_ok r.errata && directive_accepts o (yaml.member node (codes "value")))
    unfolding field_for field_directive directive_accepts
    field_for-is_ok name node none r =
        let value = yaml.member node (codes "value") in
        map_value-is_ok name (record { rule_type = []; is_inverted = false })
          (is_nocase_node ops yaml node) value (note info r)
        ∙ (rw (nothing_accepted value, is_ok-note r.errata info) ground arith)
    field_for-is_ok name node (some d) r =
        map_value-is_ok name d (is_nocase_node ops yaml node) (yaml.member node (codes "value")) r

    field_map-is_ok :
        (name : Bytes) (node : Node) (assume : Bool) (r : Reading)
        → is_ok (field_map ops yaml name node assume r).errata
          ≡ (is_ok r.errata && accepts_map yaml node assume)
    unfolding field_map
    field_map-is_ok name node assume r =
        field_for-is_ok name node (directive_of ops yaml node assume) r
        ∙ ap (λ b. is_ok r.errata && b) (directive_of_lem node assume)

    refused : (r : Reading) → is_ok (note Severity.error r).errata ≡ (is_ok r.errata && false)
    refused r = is_ok-note r.errata Severity.error

    field_entry-is_ok :
        (key value : Node) (t : Option Node) (assume : Bool) (r : Reading)
        → is_ok (field_entry ops yaml key value t assume r).errata
          ≡ (is_ok r.errata && accepts_value yaml value t assume)
    unfolding field_entry
    field_entry-is_ok key value t assume r =
        let name = map tolower (yaml.text key) in
        ground (
          arith,
          field_scalar-is_ok name (yaml.text value) t assume r,
          field_values-is_ok name (map yaml.text (yaml.elements value)) t assume r,
          field_map-is_ok name value assume r,
          refused r,
        )

    entry-is_ok :
        (es : List Node) (assume : Bool) (r : Reading)
        → is_ok (entry ops yaml (field_entry ops yaml) es assume r).errata
          ≡ (is_ok r.errata && accepts_entry yaml es assume)
    entry-is_ok [] assume r = refused r
    entry-is_ok (key ∷ []) assume r = refused r
    entry-is_ok (key ∷ value ∷ []) assume r = field_entry-is_ok key value none assume r
    entry-is_ok (key ∷ value ∷ t ∷ []) assume r = field_entry-is_ok key value (some t) assume r
    entry-is_ok (key ∷ value ∷ t ∷ u ∷ more) assume r = refused r

    parse_entry-is_ok :
        (node : Node) (assume : Bool) (r : Reading)
        → is_ok (parse_entry ops yaml (field_entry ops yaml) node assume r).errata
          ≡ (is_ok r.errata && accepts_node yaml node assume)
    unfolding parse_entry
    parse_entry-is_ok node assume r =
        ground (arith, entry-is_ok (yaml.elements node) assume r, refused r)

    parse_entries-is_ok :
        (nodes : List Node) (assume : Bool) (r : Reading)
        → is_ok (parse_entries ops yaml (field_entry ops yaml) nodes assume r).errata
          ≡ (is_ok r.errata && accepts yaml nodes assume)
    parse_entries-is_ok [] assume r = and_true (is_ok r.errata)
    parse_entries-is_ok (node ∷ nodes) assume r = ground (
      arith,
      parse_entries-is_ok nodes assume (parse_entry ops yaml (field_entry ops yaml) node assume r),
      parse_entry-is_ok node assume r,
    )

    -- `parse_fields_and_rules` comes back without an error exactly if every node is an entry of two or
    -- three elements with a value that is not null, and each directive that an entry has is one of the
    -- six; in a map it stands with a scalar, a sequence or no value, unless it is empty.
    pub parse_fields_and_rules-accepts :
        (node : Node) (fields : HttpFields) (assume : Bool)
        → is_ok (parse_fields_and_rules ops yaml node fields assume).errata
          ≡ accepts yaml (yaml.elements node) assume
    unfolding parse_fields_and_rules
    parse_fields_and_rules-accepts node fields assume =
        parse_entries-is_ok (yaml.elements node) assume (record { fields = fields; errata = [] })
