-- ===== src/Swoc.antt =====
-- What the code takes from libswoc (swoc/TextView.h), which is not part of the repository: the
-- text comparisons, as operations with the documented laws. `int` results are given by their sign.
use proxy_verifier.Base.{Bytes, Bool, true, Ordering, ◌≡◌, ◌↔◌, ◌++◌, map, tolower, lex}

pub record TextOps : Type 0 where
  pub strcmp : Bytes → Bytes → Ordering
  pub strcasecmp : Bytes → Bytes → Ordering
  pub starts_with : Bytes → Bytes → Bool
  pub ends_with : Bytes → Bytes → Bool

-- Both comparisons order bytes lexicographically, the second one with letters in lower case.
pub record TextLaws (ops : TextOps) : Type 0 where
  pub strcmp_lex : (a b : Bytes) → ops.strcmp a b ≡ lex a b
  pub strcasecmp_lex : (a b : Bytes) → ops.strcasecmp a b ≡ lex (map tolower a) (map tolower b)
  pub starts_with_iff :
      (view text : Bytes)
      → (ops.starts_with view text ≡ true) ↔ ((rest : Bytes) × (view ≡ text ++ rest))
  pub ends_with_iff :
      (view text : Bytes)
      → (ops.ends_with view text ≡ true) ↔ ((front : Bytes) × (view ≡ front ++ text))
