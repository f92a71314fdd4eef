-- ===== src/Rules/Promise.antt =====
-- What each rule class of verification.cc promises of the field that it is given.
use proxy_verifier.Base.{Bytes, List, [], ◌∷◌, map, ◌≡◌, ◌≢◌, if◌then◌else◌}
use proxy_verifier.Rules.Deciding.{fold, IsRegular}
use proxy_verifier.Rules.Defs.{
  RuleBase, SubstrKind, RuleCheck, equality, presence, absence, substr, rule_base,
}
use proxy_verifier.Rules.Matching.{Matches}

-- The promise of a rule with no `not`. The empty name is the absent field.
abbrev pub Promise : RuleCheck → Bytes → Bytes → Type 0
Promise (equality b e) name value = (name ≢ []) × (fold b value ≡ fold b e.value)
Promise (presence b d) name value = name ≢ []
Promise (absence b d) name value = name ≡ []
Promise (substr kind b e) name value = (name ≢ []) × Matches kind (fold b value) (fold b e.value)

-- The same for all values of a field, compared in order and in number.
abbrev pub AllMatch : SubstrKind → RuleBase → List Bytes → List Bytes → Type 0
AllMatch kind b [] [] = Unit
AllMatch kind b (v ∷ values) (t ∷ texts) =
    Matches kind (fold b v) (fold b t) × AllMatch kind b values texts
AllMatch kind b values texts = ⊥

abbrev pub PromiseAll : RuleCheck → Bytes → List Bytes → Type 0
PromiseAll (equality b e) name values = (name ≢ []) × (map (fold b) values ≡ map (fold b) e.values)
PromiseAll (presence b d) name values = name ≢ []
PromiseAll (absence b d) name values = name ≡ []
PromiseAll (substr kind b e) name values = (name ≢ []) × AllMatch kind b values e.values

-- `not` asks for the opposite.
abbrev pub Holds : RuleCheck → Type 0 → Type 0
Holds rule P = if (rule_base rule).is_inverted then (P → ⊥) else P

-- The texts of the rule avoid the irregular cases on these values.
abbrev pub IsRegularRule : RuleCheck → Bytes → Type 0
IsRegularRule (substr kind b e) value = IsRegular kind b value e.value
IsRegularRule rule value = Unit

abbrev pub AllRegular : SubstrKind → RuleBase → List Bytes → List Bytes → Type 0
AllRegular kind b (v ∷ values) (t ∷ texts) = IsRegular kind b v t × AllRegular kind b values texts
AllRegular kind b values texts = Unit

abbrev pub IsRegularRuleAll : RuleCheck → List Bytes → Type 0
IsRegularRuleAll (substr kind b e) values = AllRegular kind b values e.values
IsRegularRuleAll rule values = Unit
