-- ===== src/Tests/Rules.antt =====
-- Rules on concrete fields.
use proxy_verifier.Base.{
  Bool, true, false, not, [], ◌∷◌, ◌≡◌, ◌↔◌, refl, codes, arith, lex, tolower, map,
}
use proxy_verifier.Rules.Defs.{
  RuleBase, Expected, equality, substr, contains, invert_if_applicable, host,
  expects_duplicate_fields,
}
use proxy_verifier.Rules.Evaluate.{test, test_tv, test_values, differs, all_equal}
use proxy_verifier.Rules.Factory.{make_field_rule, make_duplicate_rule, make_url_rule}
use proxy_verifier.Rules.Holding.{test-Holds, test_values-Holds}
use proxy_verifier.Rules.Promise.{Promise, PromiseAll, Holds}
use proxy_verifier.Rules.Inverting.{invert, test-invert, test-contains_longer}
use proxy_verifier.Rules.Making.{Every, make_rule-expects}
use proxy_verifier.Rules.Search.{same_nocase, search_offset}
use proxy_verifier.Tests.Text.{text_ops, text_laws}

abbrev via : Bool → Bool → RuleBase
via inverted nocase = record {
  name = codes "via";
  is_field = true;
  is_inverted = inverted;
  is_nocase = nocase;
}

abbrev proxy : Expected
proxy = record { value = codes "Proxy"; values = []; duplicates = false }

abbrev two_vias : Expected
two_vias = record { value = []; values = codes "a" ∷ codes "b" ∷ []; duplicates = true }

contains_nocase :
    (test text_ops (substr contains (via false true) proxy) (codes "via") (codes "my proxy 1")).0
    ≡ true
unfolding test test_tv same_nocase search_offset tolower invert_if_applicable
contains_nocase = refl

values_in_order :
    ((test_values text_ops
        (equality (via false false) two_vias)
        (codes "via")
        (codes "a" ∷ codes "b" ∷ [])).0
      ≡ true)
    × ((test_values text_ops
          (equality (via false false) two_vias)
          (codes "via")
          (codes "b" ∷ codes "a" ∷ [])).0
        ≡ false)
unfolding test_values differs all_equal invert_if_applicable lex
values_in_order = (refl, refl)

test-Holds_example :
    ((test text_ops (substr contains (via true false) proxy) (codes "via") (codes "a Proxy b")).0
      ≡ true)
    ↔ Holds
        (substr contains (via true false) proxy)
        (Promise (substr contains (via true false) proxy) (codes "via") (codes "a Proxy b"))
test-Holds_example =
    test-Holds text_laws (substr contains (via true false) proxy) (codes "via") (codes "a Proxy b")
      (λ n. (λ e f. cc, λ e. omega arith))

test_values-Holds_example :
    ((test_values text_ops
        (equality (via false true) two_vias)
        (codes "via")
        (codes "A" ∷ codes "B" ∷ [])).0
      ≡ true)
    ↔ Holds
        (equality (via false true) two_vias)
        (PromiseAll (equality (via false true) two_vias) (codes "via") (codes "A" ∷ codes "B" ∷ []))
test_values-Holds_example =
    test_values-Holds text_laws (equality (via false true) two_vias) (codes "via")
      (codes "A" ∷ codes "B" ∷ []) (λ n. tt)

test-invert_example :
    (test text_ops
      (invert (substr contains (via false false) proxy))
      (codes "via")
      (codes "Proxy")).0
    ≡ not (test text_ops (substr contains (via false false) proxy) (codes "via") (codes "Proxy")).0
test-invert_example =
    test-invert text_ops (substr contains (via false false) proxy) (codes "via") (codes "Proxy")
      (omega arith)

test-contains_longer_example :
    ((test text_ops (substr contains (via false false) proxy) (codes "via") (codes "a")).0 ≡ false)
    × ((test text_ops
          (invert (substr contains (via false false) proxy))
          (codes "via")
          (codes "a")).0
        ≡ false)
test-contains_longer_example =
    test-contains_longer text_ops (via false false) proxy (codes "via") (codes "a") (λ e. cc)
      (omega arith)

same_directive : map tolower (codes "Equal") ≡ map tolower (codes "equal")
unfolding tolower
same_directive = refl

make_rule-expects_example :
    Every
      (λ rule. expects_duplicate_fields rule ≡ false)
      (make_field_rule text_ops (codes "via") (codes "a") (codes "suffix") false false)
    × Every
        (λ rule. expects_duplicate_fields rule ≡ false)
        (make_url_rule text_ops host (codes "a") (codes "suffix") false false)
    × Every
        (λ rule. expects_duplicate_fields rule ≡ true)
        (make_duplicate_rule text_ops (codes "via") (codes "a" ∷ []) (codes "suffix") false false)
make_rule-expects_example =
    make_rule-expects text_ops (codes "suffix") (codes "via") (codes "a") (codes "a" ∷ []) host
      false false
