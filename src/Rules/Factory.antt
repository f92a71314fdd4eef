-- ===== src/Rules/Factory.antt =====
-- The constructors of the rule classes (verification.cc), the tables of `options_init` and the
-- three `make_rule_check` overloads, which look a directive up without regard to case.
use proxy_verifier.Base.{
  Bytes, Bool, true, false, not, List, [], ◌∷◌, Option, none, some, codes, is_eq, if◌then◌else◌,
}
use proxy_verifier.Rules.Defs.{
  UrlPart, url_part_name, RuleBase, Expected, SubstrKind, contains, prefix, suffix, RuleCheck,
  equality, presence, absence, substr,
}
use proxy_verifier.Swoc.{TextOps}

field_base : Bytes → Bool → Bool → RuleBase
field_base name inverted nocase = record {
  name = name;
  is_field = true;
  is_inverted = inverted;
  is_nocase = nocase;
}

url_base : UrlPart → Bool → Bool → RuleBase
unfolding url_part_name
url_base part inverted nocase = record {
  name = url_part_name part;
  is_field = false;
  is_inverted = inverted;
  is_nocase = nocase;
}

one_value : Bytes → Expected
one_value v = record { value = v; values = []; duplicates = false }

many_values : List Bytes → Expected
many_values vs = record { value = []; values = vs; duplicates = true }

-- `RuleCheck::EXPECTS_DUPLICATE_FIELDS`
abbrev expects_duplicates : Bool
expects_duplicates = true

unfoldable pub equality_field : Bytes → Bytes → Bool → Bool → RuleCheck
unfolding field_base one_value
equality_field name value inverted nocase =
    equality (field_base name inverted nocase) (one_value value)

unfoldable pub equality_url : UrlPart → Bytes → Bool → Bool → RuleCheck
unfolding url_base one_value
equality_url part value inverted nocase = equality (url_base part inverted nocase) (one_value value)

unfoldable pub equality_values : Bytes → List Bytes → Bool → Bool → RuleCheck
unfolding field_base many_values
equality_values name values inverted nocase =
    equality (field_base name inverted nocase) (many_values values)

-- Presence and absence ignore the value and the case option.
unfoldable pub presence_field : Bytes → Bytes → Bool → Bool → RuleCheck
unfolding field_base
presence_field name value inverted nocase =
    presence (field_base name inverted false) (not expects_duplicates)

unfoldable pub presence_url : UrlPart → Bytes → Bool → Bool → RuleCheck
unfolding url_base
presence_url part value inverted nocase = presence (url_base part inverted false) false

unfoldable pub presence_values : Bytes → List Bytes → Bool → Bool → RuleCheck
unfolding field_base
presence_values name values inverted nocase =
    presence (field_base name inverted false) expects_duplicates

unfoldable pub absence_field : Bytes → Bytes → Bool → Bool → RuleCheck
unfolding field_base
absence_field name value inverted nocase =
    absence (field_base name inverted false) (not expects_duplicates)

unfoldable pub absence_url : UrlPart → Bytes → Bool → Bool → RuleCheck
unfolding url_base
absence_url part value inverted nocase = absence (url_base part inverted false) false

unfoldable pub absence_values : Bytes → List Bytes → Bool → Bool → RuleCheck
unfolding field_base
absence_values name values inverted nocase =
    absence (field_base name inverted false) expects_duplicates

-- `ContainsCheck`, `PrefixCheck` and `SuffixCheck` are built alike.
unfoldable pub substr_field : SubstrKind → Bytes → Bytes → Bool → Bool → RuleCheck
unfolding field_base one_value
substr_field kind name value inverted nocase =
    substr kind (field_base name inverted nocase) (one_value value)

unfoldable pub substr_url : SubstrKind → UrlPart → Bytes → Bool → Bool → RuleCheck
unfolding url_base one_value
substr_url kind part value inverted nocase =
    substr kind (url_base part inverted nocase) (one_value value)

unfoldable pub substr_values : SubstrKind → Bytes → List Bytes → Bool → Bool → RuleCheck
unfolding field_base many_values
substr_values kind name values inverted nocase =
    substr kind (field_base name inverted nocase) (many_values values)

-- The `make_*` functions of one overload, by directive.
abbrev pub MakeRule : Type 0 → Type 0 → Type 0
MakeRule T V = T → V → Bool → Bool → RuleCheck

unfoldable pub options : List (Bytes × MakeRule Bytes Bytes)
unfolding equality_field presence_field absence_field substr_field
options =
    (codes "equal", equality_field)
    ∷ (codes "present", presence_field)
    ∷ (codes "absent", absence_field)
    ∷ (codes "contains", substr_field contains)
    ∷ (codes "prefix", substr_field prefix)
    ∷ (codes "suffix", substr_field suffix)
    ∷ []

unfoldable pub url_rule_options : List (Bytes × MakeRule UrlPart Bytes)
unfolding equality_url presence_url absence_url substr_url
url_rule_options =
    (codes "equal", equality_url)
    ∷ (codes "present", presence_url)
    ∷ (codes "absent", absence_url)
    ∷ (codes "contains", substr_url contains)
    ∷ (codes "prefix", substr_url prefix)
    ∷ (codes "suffix", substr_url suffix)
    ∷ []

unfoldable pub duplicate_field_options : List (Bytes × MakeRule Bytes (List Bytes))
unfolding equality_values presence_values absence_values substr_values
duplicate_field_options =
    (codes "equal", equality_values)
    ∷ (codes "present", presence_values)
    ∷ (codes "absent", absence_values)
    ∷ (codes "contains", substr_values contains)
    ∷ (codes "prefix", substr_values prefix)
    ∷ (codes "suffix", substr_values suffix)
    ∷ []

module _ (ops : TextOps) where
  -- `unordered_map::find` with the equality of `Hash`.
  unfoldable pub find_option :
      {T V : Type 0} → List (Bytes × MakeRule T V) → Bytes → Option (MakeRule T V)
  find_option [] rule_type = none
  find_option ((key, make) ∷ rest) rule_type =
      if is_eq (ops.strcasecmp key rule_type) then some make else find_option rest rule_type

  -- `none` is the null pointer of an unknown directive.
  unfoldable pub build :
      {T V : Type 0} → Option (MakeRule T V) → T → V → Bool → Bool → Option RuleCheck
  build none target value inverted nocase = none
  build (some make) target value inverted nocase = some (make target value inverted nocase)

  unfoldable pub make_field_rule : Bytes → Bytes → Bytes → Bool → Bool → Option RuleCheck
  unfolding find_option build options
  make_field_rule name value rule_type = build (find_option options rule_type) name value

  unfoldable pub make_url_rule : UrlPart → Bytes → Bytes → Bool → Bool → Option RuleCheck
  unfolding find_option build url_rule_options
  make_url_rule part value rule_type = build (find_option url_rule_options rule_type) part value

  unfoldable pub make_duplicate_rule : Bytes → List Bytes → Bytes → Bool → Bool → Option RuleCheck
  unfolding find_option build duplicate_field_options
  make_duplicate_rule name values rule_type =
      build (find_option duplicate_field_options rule_type) name values
