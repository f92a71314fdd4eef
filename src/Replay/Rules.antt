-- ===== src/Replay/Rules.antt =====
-- `YamlParser::parse_url_rules`, `parse_fields_and_rules` and `parse_global_rules`. The names and
-- values are what `Localizer` gives for them before it is frozen.
use proxy_verifier.Base.{
  ℕ, Bytes, Bool, true, false, List, [], ◌∷◌, ◌++◌, Option, none, some, ◌==◌, codes, is_eq, lex,
  map, tolower, if◌then◌else◌,
}
use proxy_verifier.Fields.Defs.{HttpFields}
use proxy_verifier.Multimap.Ops.{emplace}
use proxy_verifier.Replay.Yaml.{null, scalar, sequence, mapping, YamlOps}
use proxy_verifier.Rules.Defs.{
  UrlPart, scheme, host, port, authority, path, query, fragment, RuleCheck,
}
use proxy_verifier.Rules.Factory.{equality_url, make_url_rule}
use proxy_verifier.Session.Errata.{Errata, Severity, info}
use proxy_verifier.Swoc.{TextOps}

-- The fields and rules, with the messages so far.
pub record Reading : Type 0 where
  pub fields : HttpFields
  pub errata : Errata

abbrev pub note : Severity → Reading → Reading
note severity r = record r { errata = r.errata ++ (severity ∷ []) }

-- `static_cast<size_t>(part_id)`
abbrev pub part_index : UrlPart → ℕ
part_index scheme = 0
part_index host = 1
part_index port = 2
part_index authority = 3
part_index path = 4
part_index query = 5
part_index fragment = 6
part_index UrlPart.error = 7

-- `_url_rules[part_id].push_back(rule)`
unfoldable pub push_url_rule : UrlPart → Option RuleCheck → HttpFields → HttpFields
push_url_rule url_part rule h = record h {
  url_rules = λ p.
      if part_index p == part_index url_part then h.url_rules p ++ (rule ∷ []) else h.url_rules p;
}

-- The names of `URL_PART_NAMES`.
abbrev pub url_part_names : List (Bytes × UrlPart)
url_part_names =
    (codes "scheme", scheme)
    ∷ (codes "host", host)
    ∷ (codes "port", port)
    ∷ (codes "net-loc", authority)
    ∷ (codes "authority", authority)
    ∷ (codes "path", path)
    ∷ (codes "query", query)
    ∷ (codes "fragment", fragment)
    ∷ []

-- A rule in the form of a map: the directive, whether it stands under `not`, and the case option.
pub record Directive : Type 0 where
  pub rule_type : Bytes
  pub is_inverted : Bool

module _ (ops : TextOps) where
  abbrev pub find_part : List (Bytes × UrlPart) → Bytes → UrlPart
  find_part [] name = UrlPart.error
  find_part ((n, url_part) ∷ names) name =
      let later = find_part names name in if is_eq (ops.strcasecmp n name) then url_part else later

  -- `HttpHeader::parse_url_part`
  unfoldable pub parse_url_part : Bytes → UrlPart
  parse_url_part name = find_part url_part_names name

  -- `_rules.emplace(name, rule)`
  unfoldable pub emplace_rule : Bytes → RuleCheck → HttpFields → HttpFields
  emplace_rule name rule h = record h { rules = emplace ops name rule h.rules }

module _ (ops : TextOps) {Node : Type 0} (yaml : YamlOps Node) where
  -- `case: ignore`
  unfoldable pub is_nocase_node : Node → Bool
  is_nocase_node node = elim (yaml.member node (codes "case")) [
    | none ↦ false
    | some n ↦ (elim (yaml.kind n) [
      | scalar ↦ is_eq (lex (yaml.text n) (codes "ignore"))
      | null ↦ false
      | sequence ↦ false
      | mapping ↦ false
    ])
  ]

  -- The directive of a rule in the form of a map; none where equality is not assumed.
  unfoldable pub directive_of : Node → Bool → Option Directive
  directive_of node assume_equality_rule = elim (yaml.member node (codes "as")) [
    | some n ↦ some (record { rule_type = yaml.text n; is_inverted = false })
    | none ↦ (elim (yaml.member node (codes "not")) [
      | some n ↦ some (record { rule_type = yaml.text n; is_inverted = true })
      | none ↦
          if assume_equality_rule
          then some (record { rule_type = codes "equal"; is_inverted = false })
          else none
    ])
  ]

  -- The rule of a URL, or an error.
  abbrev pub push_or_error : UrlPart → Option RuleCheck → Reading → Reading
  push_or_error url_part none r = note Severity.error r
  push_or_error url_part (some rule) r = record r {
    fields = push_url_rule url_part (some rule) r.fields;
  }

  -- A scalar, with the third element of the rule, if there is one.
  unfoldable pub url_scalar : UrlPart → Bytes → Option Node → Bool → Reading → Reading
  unfolding push_url_rule equality_url make_url_rule
  url_scalar url_part value none assume r =
      if assume
      then record r {
        fields = push_url_rule url_part (some (equality_url url_part value false false)) r.fields;
      }
      else r
  url_scalar url_part value (some t) assume r =
      push_or_error url_part (make_url_rule ops url_part value (yaml.text t) false false) r

  -- The value of a rule in the form of a map; a list of values is an error.
  unfoldable pub url_directive : UrlPart → Node → Directive → Reading → Reading
  unfolding is_nocase_node make_url_rule
  url_directive url_part node d r =
      let with = λ (value : Bytes).
        push_or_error url_part
          (make_url_rule ops url_part value d.rule_type d.is_inverted (is_nocase_node node)) r in
      elim (yaml.member node (codes "value")) [
        | none ↦ with []
        | some v ↦ (elim (yaml.kind v) [
          | scalar ↦ with (yaml.text v)
          | sequence ↦ note Severity.error r
          | null ↦ with []
          | mapping ↦ with []
        ])
      ]

  unfoldable pub url_value : UrlPart → Node → Option Node → Bool → Reading → Reading
  unfolding url_scalar url_directive directive_of
  url_value url_part value rule_type assume r = elim (yaml.kind value) [
    | scalar ↦ url_scalar url_part (yaml.text value) rule_type assume r
    | mapping ↦ (elim (directive_of value assume) [
      | none ↦ note info r
      | some d ↦ url_directive url_part value d r
    ])
    | sequence ↦ note Severity.error r
    | null ↦ note Severity.error r
  ]

  -- The part of the URL that a rule is for.
  unfoldable pub url_entry : Node → Node → Option Node → Bool → Reading → Reading
  unfolding url_value parse_url_part
  url_entry key value rule_type assume r = elim (parse_url_part ops (map tolower (yaml.text key))) [
    | UrlPart.error ↦ note Severity.error r
    | url_part ↦ url_value url_part value rule_type assume r
  ]
