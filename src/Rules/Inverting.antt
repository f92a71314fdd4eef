-- ===== src/Rules/Inverting.antt =====
-- `not` in a rule, and the values on which it does not give the opposite result.
use proxy_verifier.Base.{Bytes, false, not, [], ◌∷◌, ◌≡◌, ◌≢◌, ◌≤◌, ◌<◌, refl, arith, length}
use proxy_verifier.Rules.Defs.{
  RuleBase, Expected, contains, prefix, suffix, RuleCheck, equality, presence, absence, substr,
  invert_if_applicable,
}
use proxy_verifier.Rules.Evaluate.{test, test_tv, differs}
use proxy_verifier.Swoc.{TextOps}

abbrev invert_base : RuleBase → RuleBase
invert_base b = record b { is_inverted = not b.is_inverted }

-- The same rule with `not` added or taken away.
abbrev pub invert : RuleCheck → RuleCheck
invert (equality b e) = equality (invert_base b) e
invert (presence b d) = presence (invert_base b) d
invert (absence b d) = absence (invert_base b) d
invert (substr kind b e) = substr kind (invert_base b) e

-- The text of a `contains` rule is no longer than the value.
abbrev pub Fits : RuleCheck → Bytes → Type 0
Fits (substr contains b e) value = length e.value ≤ length value
Fits rule value = Unit

-- Adding `not` to a rule gives the opposite result on every field, present or absent, except for a
-- `contains` rule whose text is longer than the value.
pub test-invert :
    (ops : TextOps) (rule : RuleCheck) (name value : Bytes)
    → Fits rule value
    → (test ops (invert rule) name value).0 ≡ not (test ops rule name value).0
unfolding test test_tv differs invert_if_applicable
test-invert ops (equality b e) name value f = ground arith
test-invert ops (presence b d) name value f = ground arith
test-invert ops (absence b d) name value f = ground arith
test-invert ops (substr contains b e) name value f = ground arith
test-invert ops (substr prefix b e) name value f = ground arith
test-invert ops (substr suffix b e) name value f = ground arith

-- A `contains` rule rejects every present value that is shorter than its text, and the same rule
-- with `not` rejects it too.
pub test-contains_longer :
    (ops : TextOps) (b : RuleBase) (e : Expected) (name value : Bytes)
    → name ≢ []
    → length value < length e.value
    → ((test ops (substr contains b e) name value).0 ≡ false)
      × ((test ops (invert (substr contains b e)) name value).0 ≡ false)
unfolding test test_tv invert_if_applicable
test-contains_longer ops b e [] value ne long = absurd (ne refl)
test-contains_longer ops b e (c ∷ name) value ne long = (ground arith, ground arith)
