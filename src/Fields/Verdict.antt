-- ===== src/Fields/Verdict.antt =====
-- When `verify_headers` finds no issue.
use proxy_verifier.Base.{
  Bytes, Bool, true, false, List, [], ◌∷◌, Option, none, some, ◌≡◌, ◌≢◌, ◌↔◌, refl, All, is_empty,
  arith, if◌then◌else◌,
}
use proxy_verifier.Fields.Defs.{HttpFields}
use proxy_verifier.Fields.Received.{received, IsConsistent}
use proxy_verifier.Fields.Verify.{
  values_of, url_parts_in_order, test_range, verify_rules, test_part, verify_part, verify_parts,
  verify_headers,
}
use proxy_verifier.Multimap.Ops.{Multimap, equal_range}
use proxy_verifier.Rules.Defs.{UrlPart, RuleCheck, expects_duplicate_fields, url_part_name}
use proxy_verifier.Rules.Holding.{test-Holds, test_values-Holds}
use proxy_verifier.Rules.Promise.{Promise, PromiseAll, Holds, IsRegularRule, IsRegularRuleAll}
use proxy_verifier.Swoc.{TextOps, TextLaws}

-- What a rule asks of the fields that came under its name: of all their values, of the first field,
-- or of an absent one.
abbrev pub RangeHolds : Bytes → RuleCheck → Bool → List (Bytes × Bytes) → Type 0
RangeHolds name rule true [] = Holds rule (PromiseAll rule [] [])
RangeHolds name rule true (e ∷ range) = Holds rule (PromiseAll rule name (values_of (e ∷ range)))
RangeHolds name rule false [] = Holds rule (Promise rule [] [])
RangeHolds name rule false ((key, value) ∷ range) = Holds rule (Promise rule key value)

abbrev pub RangeRegular : RuleCheck → Bool → List (Bytes × Bytes) → Type 0
RangeRegular rule duplicates [] = Unit
RangeRegular rule true (e ∷ range) = IsRegularRuleAll rule (values_of (e ∷ range))
RangeRegular rule false ((key, value) ∷ range) = IsRegularRule rule value

abbrev pub FieldHolds : TextOps → List (Bytes × Bytes) → Bytes × RuleCheck → Type 0
FieldHolds ops seq (name, rule) =
    RangeHolds name rule (expects_duplicate_fields rule) (received ops name seq)

abbrev pub FieldRegular : TextOps → List (Bytes × Bytes) → Bytes × RuleCheck → Type 0
FieldRegular ops seq (name, rule) =
    RangeRegular rule (expects_duplicate_fields rule) (received ops name seq)

-- The same for a part of the URL; an empty part is absent, and a null rule asks for nothing.
abbrev pub PartHolds : UrlPart → Bytes → Option RuleCheck → Type 0
PartHolds p value none = Unit
PartHolds p value (some rule) =
    Holds rule (Promise rule (if is_empty value then [] else url_part_name p) value)

abbrev pub PartRegular : Bytes → Option RuleCheck → Type 0
PartRegular value none = Unit
PartRegular value (some rule) = value ≢ [] → IsRegularRule rule value

-- A flag that is raised at each failure is down at the end exactly if nothing failed.
raise_iff :
    {P Q : Type 0} {issue passed : Bool} (last : Bool)
    → (passed ≡ true) ↔ P
    → (last ≡ false) ↔ (((if passed then issue else true) ≡ false) × Q)
    → (last ≡ false) ↔ ((issue ≡ false) × (P × Q))
raise_iff last p l = (
  λ e. let (down, q) = l.0 e in (ground arith, (p.0 (ground arith), q)),
  λ (down, (pp, q)). l.1 (ground (arith, p.1 pp), q),
)

module _ {ops : TextOps} (laws : TextLaws ops) where
  test_range_iff :
      (name : Bytes) (rule : RuleCheck) (duplicates : Bool) (range : List (Bytes × Bytes))
      → RangeRegular rule duplicates range
      → (test_range ops name rule duplicates range ≡ true) ↔ RangeHolds name rule duplicates range
  unfolding test_range
  test_range_iff name rule true [] r = test_values-Holds laws rule [] [] (λ n. absurd (n refl))
  test_range_iff name rule true (e ∷ range) r =
      test_values-Holds laws rule name (values_of (e ∷ range)) (λ n. r)
  test_range_iff name rule false [] r = test-Holds laws rule [] [] (λ n. absurd (n refl))
  test_range_iff name rule false ((key, value) ∷ range) r = test-Holds laws rule key value (λ n. r)

  test_part_iff :
      (p : UrlPart) (rule : RuleCheck) (value : Bytes)
      → (value ≢ [] → IsRegularRule rule value)
      → (test_part ops p rule value ≡ true) ↔ PartHolds p value (some rule)
  unfolding test_part
  test_part_iff p rule [] r = test-Holds laws rule [] [] (λ n. absurd (n refl))
  test_part_iff p rule (c ∷ value) r =
      test-Holds laws rule (url_part_name p) (c ∷ value) (λ n. r (λ e. cc))

  verify_rules_iff :
      (fields : Multimap Bytes) (seq : List (Bytes × Bytes)) (rules : Multimap RuleCheck)
      (issue : Bool)
      → ((name : Bytes) → equal_range ops name fields ≡ received ops name seq)
      → All (FieldRegular ops seq) rules
      → (verify_rules ops fields issue rules ≡ false)
        ↔ ((issue ≡ false) × All (FieldHolds ops seq) rules)
  unfolding verify_rules
  verify_rules_iff fields seq [] issue c r = (λ e. (e, tt), λ h. h.0)
  verify_rules_iff fields seq ((name, rule) ∷ rules) issue c r = rw (c name) (
      raise_iff _ (test_range_iff name rule _ (received ops name seq) r.0)
        (verify_rules_iff fields seq rules _ c r.1))

  verify_part_iff :
      (p : UrlPart) (value : Bytes) (rules : List (Option RuleCheck)) (issue : Bool)
      → All (PartRegular value) rules
      → (verify_part ops p value issue rules ≡ false)
        ↔ ((issue ≡ false) × All (PartHolds p value) rules)
  unfolding verify_part
  verify_part_iff p value [] issue r = (λ e. (e, tt), λ h. h.0)
  verify_part_iff p value (none ∷ rules) issue r =
      let later = verify_part_iff p value rules issue r.1 in
      (λ e. let (d, q) = later.0 e in (d, (tt, q)), λ h. later.1 (h.0, h.1.1))
  verify_part_iff p value (some rule ∷ rules) issue r =
      raise_iff _ (test_part_iff p rule value r.0) (verify_part_iff p value rules _ r.1)

  verify_parts_iff :
      (message rules : HttpFields) (parts : List UrlPart) (issue : Bool)
      → All (λ p. All (PartRegular (message.url_parts p)) (rules.url_rules p)) parts
      → (verify_parts ops message rules issue parts ≡ false) ↔ (
          (issue ≡ false)
          × All (λ p. All (PartHolds p (message.url_parts p)) (rules.url_rules p)) parts)
  unfolding verify_parts
  verify_parts_iff message rules [] issue r = (λ e. (e, tt), λ h. h.0)
  verify_parts_iff message rules (p ∷ parts) issue r =
      let later = verify_parts_iff message rules parts _ r.1 in
      let here = verify_part_iff p (message.url_parts p) (rules.url_rules p) issue r.0 in
      (
        λ e. let (d, q) = later.0 e in let (d', h) = here.0 d in (d', (h, q)),
        λ (d, (h, q)). later.1 (here.1 (d, h), q),
      )

  -- `verify_headers` reports no issue exactly if every field rule holds of the fields that came
  -- under its name, in the order of their reception, and every rule of a URL part holds of that
  -- part. The message is consistent, and the values avoid the irregular cases of the searches.
  pub verify_headers_iff :
      (message rules : HttpFields)
      → IsConsistent ops message
      → All (FieldRegular ops message.fields_sequence) rules.rules
      → All (λ p. All (PartRegular (message.url_parts p)) (rules.url_rules p)) url_parts_in_order
      → (verify_headers ops message rules ≡ false) ↔ (
          All (FieldHolds ops message.fields_sequence) rules.rules
          × All
              (λ p. All (PartHolds p (message.url_parts p)) (rules.url_rules p))
              url_parts_in_order)
  unfolding verify_headers
  verify_headers_iff message rules c r q =
      let fields =
        verify_rules_iff message.fields message.fields_sequence rules.rules false c.ordered r in
      let parts = verify_parts_iff message rules url_parts_in_order _ q in
      (
        λ e. let (d, h) = parts.0 e in ((fields.0 d).1, h),
        λ (f, h). parts.1 (fields.1 (refl, f), h),
      )
