-- ===== src/Fields/Verify.antt =====
-- `HttpHeader::verify_headers`: the two loops, with `issue_exists` carried along.
use proxy_verifier.Base.{
  Bytes, Bool, true, false, List, [], ◌∷◌, Option, none, some, map, is_empty, if◌then◌else◌,
}
use proxy_verifier.Fields.Defs.{HttpFields}
use proxy_verifier.Multimap.Ops.{Multimap, equal_range}
use proxy_verifier.Rules.Defs.{
  UrlPart, scheme, host, port, authority, path, query, fragment, url_part_name, RuleCheck,
  expects_duplicate_fields,
}
use proxy_verifier.Rules.Evaluate.{test, test_values}
use proxy_verifier.Swoc.{TextOps}

abbrev pub values_of : Multimap Bytes → List Bytes
values_of = map (λ e. e.1)

-- The parts that the loop over `URL_PART_NAMES.count()` reaches.
abbrev pub url_parts_in_order : List UrlPart
url_parts_in_order = scheme ∷ host ∷ port ∷ authority ∷ path ∷ query ∷ fragment ∷ []

module _ (ops : TextOps) where
  -- The test of one rule on the range of fields with its name. No field at all is an empty name.
  unfoldable pub test_range : Bytes → RuleCheck → Bool → Multimap Bytes → Bool
  test_range name rule true [] = (test_values ops rule [] []).0
  test_range name rule true (e ∷ range) = (test_values ops rule name (values_of (e ∷ range))).0
  test_range name rule false [] = (test ops rule [] []).0
  test_range name rule false ((key, value) ∷ range) = (test ops rule key value).0

  unfoldable pub verify_rules : Multimap Bytes → Bool → Multimap RuleCheck → Bool
  unfolding test_range
  verify_rules fields issue [] = issue
  verify_rules fields issue ((name, rule) ∷ rules) =
      let range = equal_range ops name fields in
      verify_rules fields
        (if test_range name rule (expects_duplicate_fields rule) range then issue else true) rules

  -- The test of one rule on a part of the URL; an empty part is absent.
  unfoldable pub test_part : UrlPart → RuleCheck → Bytes → Bool
  test_part p rule value =
      if is_empty value then (test ops rule [] []).0 else (test ops rule (url_part_name p) value).0

  -- The inner loop over `url_rules[i]`; null rules are skipped.
  unfoldable pub verify_part : UrlPart → Bytes → Bool → List (Option RuleCheck) → Bool
  unfolding test_part
  verify_part p value issue [] = issue
  verify_part p value issue (none ∷ rules) = verify_part p value issue rules
  verify_part p value issue (some rule ∷ rules) =
      verify_part p value (if test_part p rule value then issue else true) rules

  unfoldable pub verify_parts : HttpFields → HttpFields → Bool → List UrlPart → Bool
  unfolding verify_part
  verify_parts message rules issue [] = issue
  verify_parts message rules issue (p ∷ parts) =
      verify_parts message rules (verify_part p (message.url_parts p) issue (rules.url_rules p))
        parts

  -- Whether any rule is violated by the message.
  unfoldable pub verify_headers : HttpFields → HttpFields → Bool
  unfolding verify_rules verify_parts
  verify_headers message rules =
      let issue = verify_rules message.fields false rules.rules in
      verify_parts message rules issue url_parts_in_order
