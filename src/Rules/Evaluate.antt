-- ===== src/Rules/Evaluate.antt =====
-- The `test` and `test_tv` overrides of verification.cc. `true` from a test is a rule that holds;
-- `true` from `test_tv` is a failure, as in the source. An empty name stands for an absent field.
use Prim.Native.String.{String}
use proxy_verifier.Base.{
  ◌-◌, Bytes, Bool, true, false, not, ◌&&◌, ◌||◌, List, [], ◌∷◌, ltb, ◌==◌, is_eq, is_empty, length,
  take, drop, if◌then◌else◌,
}
use proxy_verifier.Rules.Defs.{
  RuleBase, Expected, SubstrKind, contains, prefix, suffix, RuleCheck, equality, presence, absence,
  substr, target_type, get_subtype, invert_result, invert_if_applicable,
}
use proxy_verifier.Rules.Search.{search_offset, same_nocase, find_text, is_npos}
use proxy_verifier.Swoc.{TextOps}

-- Which message a test writes.
pub data Outcome : Type 0 where
  absent present different mismatched not_found passed : Outcome

-- The parts of a message that depend on the rule and on the branch.
pub record Report : Type 0 where
  pub subtype : String
  pub target : String
  pub verdict : String
  pub outcome : Outcome

unfoldable pub report : RuleBase → Outcome → Bool → Report
report b outcome success = record {
  subtype = get_subtype b;
  target = target_type b;
  verdict = invert_result b success;
  outcome = outcome;
}

-- `PresenceCheck::test`, of one value or many: the values stand in the message alone.
unfoldable pub presence_test : RuleBase → Bytes → Bool × Report
presence_test b name =
    if is_empty name
    then (invert_if_applicable b false, report b absent false)
    else (invert_if_applicable b true, report b passed true)

-- `AbsenceCheck::test`
unfoldable pub absence_test : RuleBase → Bytes → Bool × Report
absence_test b name =
    if not (is_empty name)
    then (invert_if_applicable b false, report b present false)
    else (invert_if_applicable b true, report b passed true)

module _ (ops : TextOps) where
  -- `ContainsCheck::test_tv`, `PrefixCheck::test_tv` and `SuffixCheck::test_tv`.
  unfoldable pub test_tv : SubstrKind → RuleBase → Bytes → Bytes → Bool
  test_tv contains b value text =
      if ltb (length value) (length text)
      then invert_if_applicable b true
      else if b.is_nocase
      then search_offset same_nocase value text == length value
      else is_npos (find_text value text)
  test_tv prefix b value text =
      if ltb (length value) (length text)
      then true
      else if b.is_nocase
      then search_offset same_nocase (take (length text) value) text == length text
      else not (ops.starts_with value text)
  test_tv suffix b value text =
      if ltb (length value) (length text)
      then true
      else if b.is_nocase
      then search_offset same_nocase (drop (length value - length text) value) text == length text
      else not (ops.ends_with value text)

  -- The condition of the second branch of `EqualityCheck::test`, and of its loop over values.
  unfoldable pub differs : RuleBase → Bytes → Bytes → Bool
  differs b value expected =
      (not b.is_nocase && not (is_eq (ops.strcmp value expected)))
      || (b.is_nocase && not (is_eq (ops.strcasecmp value expected)))

  -- The loop over `_values`, with `it` moving along the received values.
  unfoldable pub all_equal : RuleBase → List Bytes → List Bytes → Bool
  unfolding differs
  all_equal b [] values = true
  all_equal b (expected ∷ rest) [] = true
  all_equal b (expected ∷ rest) (value ∷ values) =
      let later = all_equal b rest values in if differs b expected value then false else later

  -- The loop over the received values in `SubstrCheck::test`: whether no `test_tv` fails.
  unfoldable pub all_found : SubstrKind → RuleBase → List Bytes → List Bytes → Bool
  all_found kind b [] texts = true
  all_found kind b (value ∷ values) [] = true
  all_found kind b (value ∷ values) (text ∷ texts) =
      let later = all_found kind b values texts in
      if test_tv kind b value text then false else later

  -- `EqualityCheck::test`
  unfoldable pub equality_test : RuleBase → Expected → Bytes → Bytes → Bool × Report
  equality_test b e name value =
      if is_empty name
      then (invert_if_applicable b false, report b absent false)
      else if differs b value e.value
      then (invert_if_applicable b false, report b different false)
      else (invert_if_applicable b true, report b passed true)

  unfoldable pub equality_test_values : RuleBase → Expected → Bytes → List Bytes → Bool × Report
  equality_test_values b e name values =
      if is_empty name
      then (invert_if_applicable b false, report b absent false)
      else if length values == length e.values && all_equal b e.values values
      then (invert_if_applicable b true, report b passed true)
      else (invert_if_applicable b false, report b different false)

  -- `SubstrCheck::test`
  unfoldable pub substr_test : SubstrKind → RuleBase → Expected → Bytes → Bytes → Bool × Report
  substr_test kind b e name value =
      if is_empty name
      then (invert_if_applicable b false, report b absent false)
      else if test_tv kind b value e.value
      then (invert_if_applicable b false, report b not_found false)
      else (invert_if_applicable b true, report b passed true)

  unfoldable pub substr_test_values :
      SubstrKind → RuleBase → Expected → Bytes → List Bytes → Bool × Report
  substr_test_values kind b e name values =
      if is_empty name || not (length values == length e.values)
      then (invert_if_applicable b false, report b mismatched false)
      else if all_found kind b values e.values
      then (invert_if_applicable b true, report b passed true)
      else (invert_if_applicable b false, report b not_found false)

  -- The virtual `test(key, name, value)`; the key stands in the message alone.
  unfoldable pub test : RuleCheck → Bytes → Bytes → Bool × Report
  unfolding equality_test presence_test absence_test substr_test
  test (equality b e) name value = equality_test b e name value
  test (presence b d) name value = presence_test b name
  test (absence b d) name value = absence_test b name
  test (substr kind b e) name value = substr_test kind b e name value

  -- The virtual `test(key, name, values)`
  unfoldable pub test_values : RuleCheck → Bytes → List Bytes → Bool × Report
  unfolding equality_test_values presence_test absence_test substr_test_values
  test_values (equality b e) name values = equality_test_values b e name values
  test_values (presence b d) name values = presence_test b name
  test_values (absence b d) name values = absence_test b name
  test_values (substr kind b e) name values = substr_test_values kind b e name values
