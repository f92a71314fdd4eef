-- ===== src/Multimap/Laws.antt =====
-- Sortedness, and what `equal_range` finds after `emplace`.
use proxy_verifier.Base.{
  Bytes, true, false, [], ◌∷◌, ◌++◌, map, ◌≡◌, ◌↔◌, inl, inr, refl, ap, Bool-cases, All, arith,
  tolower, lex, lex-eq_iff, lex-lt_trans, lex-gt_iff, lex_self, is_lt, append-nil, if◌then◌else◌,
}
use proxy_verifier.Multimap.Ops.{Multimap, less, equivalent, emplace, equal_range}
use proxy_verifier.Swoc.{TextOps, TextLaws}

abbrev low : Bytes → Bytes
low = map tolower

module _ {ops : TextOps} (laws : TextLaws ops) where
  less-lex : (a b : Bytes) → less ops a b ≡ is_lt (lex (low a) (low b))
  unfolding less
  less-lex a b = rw (laws.strcasecmp_lex a b)

  pub equivalent_iff : (a b : Bytes) → (equivalent ops a b ≡ true) ↔ (low a ≡ low b)
  unfolding equivalent
  equivalent_iff a b =
      rw (less-lex a b, less-lex b a)
        (
          λ h. (lex-eq_iff (low a) (low b)).0 (ground (arith, lex-gt_iff (low a) (low b))),
          λ h. rw (h, lex_self (low b)),
        )

  -- `a` before `b` and `c` not before `b` puts `c` after `a`.
  less-le_trans : (a b c : Bytes) → less ops a b ≡ true → less ops c b ≡ false → less ops a c ≡ true
  less-le_trans a b c =
      rw (less-lex a b, less-lex c b, less-lex a c)
        λ h g. ground (
          arith,
          lex-lt_trans (low a) (low b) (low c),
          lex-gt_iff (low c) (low b),
          lex-eq_iff (low c) (low b),
        )

  less_not_equivalent :
      (a b c : Bytes) → less ops a b ≡ true → low a ≡ low c → equivalent ops b c ≡ false
  unfolding equivalent
  less_not_equivalent a b c h e =
      ground (arith, less-lex a b, less-lex c b, ap (λ x. lex x (low b)) e)

  less_asym : (a b : Bytes) → less ops a b ≡ true → less ops b a ≡ false
  less_asym a b =
      rw (less-lex a b, less-lex b a)
        λ h. ground (arith, lex-gt_iff (low a) (low b), lex-gt_iff (low b) (low a))

module _ {V : Type 0} where
  -- No entry of the map comes before the key.
  abbrev pub NoneBefore : TextOps → Bytes → Multimap V → Type 0
  NoneBefore ops key = All (λ e. less ops e.0 key ≡ false)

  abbrev pub IsSorted : TextOps → Multimap V → Type 0
  IsSorted ops [] = Unit
  IsSorted ops ((j, w) ∷ m) = NoneBefore ops j m × IsSorted ops m

module _ {ops : TextOps} (laws : TextLaws ops) {V : Type 0} where
  NoneBefore-emplace :
      (j key : Bytes) (v : V) (m : Multimap V)
      → less ops key j ≡ false
      → NoneBefore ops j m
      → NoneBefore ops j (emplace ops key v m)
  unfolding emplace
  NoneBefore-emplace j key v [] h n = (h, tt)
  NoneBefore-emplace j key v ((i, w) ∷ m) h n = elim (Bool-cases (less ops key i)) [
    | inl e ↦ rw e (h, n)
    | inr e ↦ rw e (n.0, NoneBefore-emplace j key v m h n.1)
  ]

  -- `a` before `b` and nothing before `b` leaves nothing before `a`.
  NoneBefore-less :
      (a b : Bytes) (m : Multimap V) → less ops a b ≡ true → NoneBefore ops b m → NoneBefore ops a m
  NoneBefore-less a b [] h n = tt
  NoneBefore-less a b ((i, w) ∷ m) h n =
      (less_asym laws a i (less-le_trans laws a b i h n.0), NoneBefore-less a b m h n.1)

  pub emplace-IsSorted :
      (key : Bytes) (v : V) (m : Multimap V) → IsSorted ops m → IsSorted ops (emplace ops key v m)
  unfolding emplace
  emplace-IsSorted key v [] s = (tt, tt)
  emplace-IsSorted key v ((j, w) ∷ m) s = elim (Bool-cases (less ops key j)) [
    | inl e ↦ rw e ((less_asym laws key j e, NoneBefore-less key j m e s.0), s)
    | inr e ↦ rw e (NoneBefore-emplace j key v m e s.0, emplace-IsSorted key v m s.1)
  ]

  -- Nothing is found under a key that comes before all others.
  equal_range_before :
      (a b key : Bytes) (m : Multimap V)
      → less ops a b ≡ true
      → NoneBefore ops b m
      → low a ≡ low key
      → equal_range ops key m ≡ []
  unfolding equal_range
  equal_range_before a b key [] h n e = refl
  equal_range_before a b key ((i, w) ∷ m) h n e =
      rw (less_not_equivalent laws a i key (less-le_trans laws a b i h n.0) e)
        (equal_range_before a b key m h n.1 e)

  -- A new entry is found last under its own key, and under no other.
  pub equal_range-emplace :
      (j key : Bytes) (v : V) (m : Multimap V)
      → IsSorted ops m
      → equal_range ops j (emplace ops key v m)
        ≡ equal_range ops j m ++ (if equivalent ops key j then (key, v) ∷ [] else [])
  unfolding equal_range emplace
  equal_range-emplace j key v [] s = ground arith
  equal_range-emplace j key v ((i, w) ∷ m) s = elim (Bool-cases (less ops key i)) [
    | inl before ↦ rw before (elim (Bool-cases (equivalent ops key j)) [
      | inl same ↦
          let e = (equivalent_iff laws key j).0 same in
          rw (
            same,
            less_not_equivalent laws key i j before e,
            equal_range_before key i j m before s.0 e,
          )
      | inr other ↦ rw (other, append-nil)
    ])
    | inr after ↦ rw (after, equal_range-emplace j key v m s.1) (ground arith)
  ]
