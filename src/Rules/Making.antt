-- ===== src/Rules/Making.antt =====
-- What the tables of `make_rule_check` give.
use proxy_verifier.Base.{
  Bytes, Bool, true, false, List, [], ◌∷◌, Option, none, some, map, ◌≡◌, refl, arith, tolower,
}
use proxy_verifier.Rules.Defs.{UrlPart, RuleCheck, expects_duplicate_fields}
use proxy_verifier.Rules.Factory.{
  MakeRule, find_option, options, url_rule_options, duplicate_field_options, make_field_rule,
  make_url_rule, make_duplicate_rule,
}
use proxy_verifier.Swoc.{TextOps, TextLaws}

module _ {ops : TextOps} (laws : TextLaws ops) where
  find_option-nocase :
      {T V : Type 0} (table : List (Bytes × MakeRule T V)) (s t : Bytes)
      → map tolower s ≡ map tolower t
      → find_option ops table s ≡ find_option ops table t
  unfolding find_option
  find_option-nocase [] s t h = refl
  find_option-nocase ((key, make) ∷ table) s t h =
      rw (laws.strcasecmp_lex key s, laws.strcasecmp_lex key t, h, find_option-nocase table s t h)

  -- Two spellings of a directive that differ in case make the same rule, in all three overloads.
  pub make_rule-nocase :
      (s t name value : Bytes) (values : List Bytes) (url_part : UrlPart) (inverted nocase : Bool)
      → map tolower s ≡ map tolower t
      → (make_field_rule ops name value s inverted nocase
          ≡ make_field_rule ops name value t inverted nocase)
        × (make_url_rule ops url_part value s inverted nocase
            ≡ make_url_rule ops url_part value t inverted nocase)
        × (make_duplicate_rule ops name values s inverted nocase
            ≡ make_duplicate_rule ops name values t inverted nocase)
  unfolding make_field_rule make_url_rule make_duplicate_rule
  make_rule-nocase s t name value values url_part inverted nocase h = (
    rw (find_option-nocase options s t h),
    rw (find_option-nocase url_rule_options s t h),
    rw (find_option-nocase duplicate_field_options s t h),
  )

-- A statement about the rule that is made, if one is.
abbrev pub Every : (RuleCheck → Type 0) → Option RuleCheck → Type 0
Every P none = Unit
Every P (some rule) = P rule

Every-of :
    (P : RuleCheck → Type 0) (o : Option RuleCheck)
    → ((rule : RuleCheck) → o ≡ some rule → P rule)
    → Every P o
Every-of P none h = tt
Every-of P (some rule) h = h rule refl

module _ (ops : TextOps) where
  field_expects :
      (name value t : Bytes) (inverted nocase : Bool) {rule : RuleCheck}
      → make_field_rule ops name value t inverted nocase ≡ some rule
      → expects_duplicate_fields rule ≡ false
  unfolding make_field_rule expects_duplicate_fields
  field_expects name value t inverted nocase h = ground arith

  url_expects :
      (url_part : UrlPart) (value t : Bytes) (inverted nocase : Bool) {rule : RuleCheck}
      → make_url_rule ops url_part value t inverted nocase ≡ some rule
      → expects_duplicate_fields rule ≡ false
  unfolding make_url_rule expects_duplicate_fields
  url_expects url_part value t inverted nocase h = ground arith

  duplicate_expects :
      (name : Bytes) (values : List Bytes) (t : Bytes) (inverted nocase : Bool) {rule : RuleCheck}
      → make_duplicate_rule ops name values t inverted nocase ≡ some rule
      → expects_duplicate_fields rule ≡ true
  unfolding make_duplicate_rule expects_duplicate_fields
  duplicate_expects name values t inverted nocase h = ground arith

  -- Only a rule made from a list of values asks for all the values of a field.
  pub make_rule-expects :
      (t name value : Bytes) (values : List Bytes) (url_part : UrlPart) (inverted nocase : Bool)
      → Every
          (λ rule. expects_duplicate_fields rule ≡ false)
          (make_field_rule ops name value t inverted nocase)
        × Every
            (λ rule. expects_duplicate_fields rule ≡ false)
            (make_url_rule ops url_part value t inverted nocase)
        × Every
            (λ rule. expects_duplicate_fields rule ≡ true)
            (make_duplicate_rule ops name values t inverted nocase)
  make_rule-expects t name value values url_part inverted nocase = (
    Every-of _ _ (λ rule. field_expects name value t inverted nocase),
    Every-of _ _ (λ rule. url_expects url_part value t inverted nocase),
    Every-of _ _ (λ rule. duplicate_expects name values t inverted nocase),
  )
