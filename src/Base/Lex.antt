-- ===== src/Base/Lex.antt =====
-- The lexicographic order of byte strings.
use Prim.Native.Nat.{compare, Ordering}
use mathlib.Core.Path.{◌≡◌, refl}
use mathlib.Core.Logic.{◌↔◌}
use mathlib.Core.List.{[], ◌∷◌}
use native.Mathlib.Omega.{arith}
use proxy_verifier.Base.Chars.{Bytes}

unfoldable pub lex : Bytes → Bytes → Ordering
lex [] [] = Ordering.eq
lex [] (y ∷ ys) = Ordering.lt
lex (x ∷ xs) [] = Ordering.gt
lex (x ∷ xs) (y ∷ ys) = elim (compare x y) [
  | Ordering.lt ↦ Ordering.lt
  | Ordering.eq ↦ lex xs ys
  | Ordering.gt ↦ Ordering.gt
]

pub lex-eq_iff : (a b : Bytes) → (lex a b ≡ Ordering.eq) ↔ (a ≡ b)
unfolding lex
lex-eq_iff [] [] = ground arith
lex-eq_iff [] (y ∷ ys) = ground arith
lex-eq_iff (x ∷ xs) [] = ground arith
lex-eq_iff (x ∷ xs) (y ∷ ys) = ground (arith, lex-eq_iff xs ys)

pub lex_self : (a : Bytes) → lex a a ≡ Ordering.eq
lex_self a = (lex-eq_iff a a).1 refl

pub lex-lt_trans :
    (a b c : Bytes) → lex a b ≡ Ordering.lt → lex b c ≡ Ordering.lt → lex a c ≡ Ordering.lt
unfolding lex
lex-lt_trans [] [] c p q = ground arith
lex-lt_trans [] (y ∷ b) [] p q = ground arith
lex-lt_trans [] (y ∷ b) (z ∷ c) p q = ground arith
lex-lt_trans (x ∷ a) [] c p q = ground arith
lex-lt_trans (x ∷ a) (y ∷ b) [] p q = ground arith
lex-lt_trans (x ∷ a) (y ∷ b) (z ∷ c) p q = ground (arith, lex-lt_trans a b c)

pub lex-gt_iff : (a b : Bytes) → (lex a b ≡ Ordering.gt) ↔ (lex b a ≡ Ordering.lt)
unfolding lex
lex-gt_iff [] [] = ground arith
lex-gt_iff [] (y ∷ ys) = ground arith
lex-gt_iff (x ∷ xs) [] = ground arith
lex-gt_iff (x ∷ xs) (y ∷ ys) = ground (arith, lex-gt_iff xs ys)
