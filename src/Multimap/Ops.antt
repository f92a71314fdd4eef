-- ===== src/Multimap/Ops.antt =====
-- `std::multimap` with `CaseInsensitiveCompare` (local/include/core/case_insensitive_utils.h), as
-- `HttpFields` uses it: the entries in key order, equivalent keys in the order of insertion.
use proxy_verifier.Base.{
  Bytes, Bool, not, ◌&&◌, List, [], ◌∷◌, Option, none, some, is_lt, if◌then◌else◌,
}
use proxy_verifier.Swoc.{TextOps}

abbrev pub Multimap : Type 0 → Type 0
Multimap V = List (Bytes × V)

module _ (ops : TextOps) where
  -- `CaseInsensitiveCompare::operator()`
  unfoldable pub less : Bytes → Bytes → Bool
  less lhs rhs = is_lt (ops.strcasecmp lhs rhs)

  -- Neither key is less than the other.
  unfoldable pub equivalent : Bytes → Bytes → Bool
  unfolding less
  equivalent a b = not (less a b) && not (less b a)

  module _ {V : Type 0} where
    -- `emplace`: at the upper bound of the key.
    unfoldable pub emplace : Bytes → V → Multimap V → Multimap V
    emplace key v [] = (key, v) ∷ []
    emplace key v ((j, w) ∷ m) =
        if less key j then (key, v) ∷ (j, w) ∷ m else (j, w) ∷ emplace key v m

    -- `equal_range`
    unfoldable pub equal_range : Bytes → Multimap V → Multimap V
    equal_range key [] = []
    equal_range key ((j, w) ∷ m) =
        if equivalent j key then (j, w) ∷ equal_range key m else equal_range key m

    unfoldable pub head : Multimap V → Option V
    head [] = none
    head ((j, w) ∷ m) = some w

    -- `find`
    unfoldable pub find : Bytes → Multimap V → Option V
    unfolding head equal_range
    find key m = head (equal_range key m)
