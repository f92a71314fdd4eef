-- ===== src/Rules/Holding.antt =====
-- The tests decide what the rules promise.
use proxy_verifier.Base.{
  Bytes, Bool, true, false, not, ◌&&◌, List, [], ◌∷◌, map, ◌==◌, ◌≡◌, ◌≢◌, ◌↔◌, inl, inr, refl,
  Bool-cases, length, arith, tolower, is_empty, lex-eq_iff, if◌then◌else◌,
}
use proxy_verifier.Rules.Deciding.{fold, test_tv_iff}
use proxy_verifier.Rules.Defs.{
  RuleBase, SubstrKind, RuleCheck, equality, presence, absence, substr, invert_if_applicable,
  rule_base,
}
use proxy_verifier.Rules.Evaluate.{test, test_values, test_tv, differs, all_equal, all_found}
use proxy_verifier.Rules.Promise.{
  Promise, PromiseAll, AllMatch, Holds, IsRegularRule, IsRegularRuleAll, AllRegular,
}
use proxy_verifier.Swoc.{TextOps, TextLaws}

-- A result that decides `P` decides, after the inversion, what the rule asks for.
inverted_iff :
    (b : RuleBase) {P : Type 0} (raw : Bool)
    → (raw ≡ true) ↔ P
    → (invert_if_applicable b raw ≡ true) ↔ (if b.is_inverted then (P → ⊥) else P)
unfolding invert_if_applicable
inverted_iff b raw h = elim (Bool-cases b.is_inverted) [
  | inl e ↦ rw e (negated raw h)
  | inr e ↦ rw e h
]
  where
    negated : {P : Type 0} (x : Bool) → (x ≡ true) ↔ P → (not x ≡ true) ↔ (P → ⊥)
    negated true g = (λ e. cc, λ n. absurd (n (g.0 refl)))
    negated false g = (λ e p. cc (g.1 p), λ n. refl)

empty_iff : (name : Bytes) → (is_empty name ≡ true) ↔ (name ≡ [])
empty_iff [] = (λ e. refl, λ e. refl)
empty_iff (c ∷ cs) = (λ e. cc, λ e. cc)

present_iff : (name : Bytes) → (not (is_empty name) ≡ true) ↔ (name ≢ [])
present_iff [] = (λ e. cc, λ n. absurd (n refl))
present_iff (c ∷ cs) = (λ e f. cc, λ n. refl)

not_iff : {P : Type 0} {x : Bool} → (x ≡ false) ↔ P → (not x ≡ true) ↔ P
not_iff h = (λ e. h.0 (ground arith), λ p. ground (arith, h.1 p))

-- The second test may be read under what the first one found.
and_iff :
    {P Q : Type 0} {x y : Bool} → (x ≡ true) ↔ P → (P → (y ≡ true) ↔ Q) → (x && y ≡ true) ↔ (P × Q)
and_iff p q = (
  λ e. let found = p.0 (ground arith) in (found, (q found).0 (ground arith)),
  λ h. ground (arith, p.1 h.0, (q h.0).1 h.1),
)

module _ {ops : TextOps} (laws : TextLaws ops) where
  differs_iff :
      (b : RuleBase) (value expected : Bytes)
      → (differs ops b value expected ≡ false) ↔ (fold b value ≡ fold b expected)
  unfolding differs fold
  differs_iff b value expected = elim (Bool-cases b.is_nocase) [
    | inl e ↦
        rw (e, laws.strcasecmp_lex value expected)
          (
            λ h. (lex-eq_iff (map tolower value) (map tolower expected)).0 (ground arith),
            λ h. ground (arith, lex-eq_iff (map tolower value) (map tolower expected)),
          )
    | inr e ↦
        rw (e, laws.strcmp_lex value expected)
          (
            λ h. (lex-eq_iff value expected).0 (ground arith),
            λ h. ground (arith, lex-eq_iff value expected),
          )
  ]

  all_equal_iff :
      (b : RuleBase) (values expected : List Bytes)
      → ((length values == length expected && all_equal ops b expected values) ≡ true)
        ↔ (map (fold b) values ≡ map (fold b) expected)
  unfolding all_equal
  all_equal_iff b [] [] = (λ h. refl, λ h. refl)
  all_equal_iff b [] (x ∷ expected) = (λ h. ground arith, λ h. cc)
  all_equal_iff b (v ∷ values) [] = (λ h. ground arith, λ h. cc)
  all_equal_iff b (v ∷ values) (x ∷ expected) = (
    λ h. ground (arith, differs_iff b x v, all_equal_iff b values expected),
    λ h. ground (arith, differs_iff b x v, all_equal_iff b values expected),
  )

  all_found_iff :
      (kind : SubstrKind) (b : RuleBase) (values texts : List Bytes)
      → AllRegular kind b values texts
      → (((not (length values == length texts)) ≡ false)
          × (all_found ops kind b values texts ≡ true))
        ↔ AllMatch kind b values texts
  unfolding all_found
  all_found_iff kind b [] [] r = (λ h. tt, λ h. (refl, refl))
  all_found_iff kind b [] (t ∷ texts) r = (λ h. ground arith, λ h. absurd h)
  all_found_iff kind b (v ∷ values) [] r = (λ h. ground arith, λ h. absurd h)
  all_found_iff kind b (v ∷ values) (t ∷ texts) r =
      let first = test_tv_iff laws kind b v t r.0 in
      let later = all_found_iff kind b values texts r.1 in
      (
        λ h. (first.0 (ground arith), later.0 (ground arith, ground arith)),
        λ h. ground (arith, first.1 h.0, later.1 h.1),
      )

  -- What `test` and `test_values` find before the inversion.
  raw : RuleCheck → Bytes → Bytes → Bool
  raw (equality b e) name value = not (is_empty name) && not (differs ops b value e.value)
  raw (presence b d) name value = not (is_empty name)
  raw (absence b d) name value = is_empty name
  raw (substr kind b e) name value = not (is_empty name) && not (test_tv ops kind b value e.value)

  raw_iff :
      (rule : RuleCheck) (name value : Bytes)
      → (name ≢ [] → IsRegularRule rule value)
      → (raw rule name value ≡ true) ↔ Promise rule name value
  unfolding raw
  raw_iff (equality b e) name value r =
      and_iff (present_iff name) (λ n. not_iff (differs_iff b value e.value))
  raw_iff (presence b d) name value r = present_iff name
  raw_iff (absence b d) name value r = empty_iff name
  raw_iff (substr kind b e) name value r =
      and_iff (present_iff name) (λ n. not_iff (test_tv_iff laws kind b value e.value (r n)))

  test-raw :
      (rule : RuleCheck) (name value : Bytes)
      → (test ops rule name value).0 ≡ invert_if_applicable (rule_base rule) (raw rule name value)
  unfolding test raw rule_base
  test-raw (absence b d) name value = ground arith
  test-raw _ name value = ground arith

  -- `test` accepts a field exactly if the rule holds of it.
  pub test-Holds :
      (rule : RuleCheck) (name value : Bytes)
      → (name ≢ [] → IsRegularRule rule value)
      → ((test ops rule name value).0 ≡ true) ↔ Holds rule (Promise rule name value)
  test-Holds rule name value r =
      rw (test-raw rule name value) (inverted_iff (rule_base rule) _ (raw_iff rule name value r))

  raw_values : RuleCheck → Bytes → List Bytes → Bool
  raw_values (equality b e) name values =
      not (is_empty name) && (length values == length e.values && all_equal ops b e.values values)
  raw_values (presence b d) name values = not (is_empty name)
  raw_values (absence b d) name values = is_empty name
  raw_values (substr kind b e) name values =
      not (is_empty name)
      && (not (not (length values == length e.values)) && all_found ops kind b values e.values)

  raw_values_iff :
      (rule : RuleCheck) (name : Bytes) (values : List Bytes)
      → (name ≢ [] → IsRegularRuleAll rule values)
      → (raw_values rule name values ≡ true) ↔ PromiseAll rule name values
  unfolding raw_values
  raw_values_iff (equality b e) name values r =
      and_iff (present_iff name) (λ n. all_equal_iff b values e.values)
  raw_values_iff (presence b d) name values r = present_iff name
  raw_values_iff (absence b d) name values r = empty_iff name
  raw_values_iff (substr kind b e) name values r = and_iff (present_iff name) λ n.
      let found = all_found_iff kind b values e.values (r n) in
      (λ h. found.0 (ground arith, ground arith), λ m. ground (arith, found.1 m))

  test_values-raw :
      (rule : RuleCheck) (name : Bytes) (values : List Bytes)
      → (test_values ops rule name values).0
        ≡ invert_if_applicable (rule_base rule) (raw_values rule name values)
  unfolding test_values raw_values rule_base
  test_values-raw (absence b d) name values = ground arith
  test_values-raw _ name values = ground arith

  -- `test_values` accepts the values of a duplicate field exactly if the rule holds of them all, in
  -- their order and number.
  pub test_values-Holds :
      (rule : RuleCheck) (name : Bytes) (values : List Bytes)
      → (name ≢ [] → IsRegularRuleAll rule values)
      → ((test_values ops rule name values).0 ≡ true) ↔ Holds rule (PromiseAll rule name values)
  test_values-Holds rule name values r =
      rw (test_values-raw rule name values)
        (inverted_iff (rule_base rule) _ (raw_values_iff rule name values r))
