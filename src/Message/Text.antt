-- ===== src/Message/Text.antt =====
-- The operations of `swoc::TextView` (swoc/TextView.h of libswoc, which is not part of the
-- repository) that the parsers of messages use, and their documented behaviour.
use proxy_verifier.Base.{ℕ, Bytes, Bool, true, [], ◌∷◌, ◌++◌, ◌==◌, ◌≡◌, is_empty, if◌then◌else◌}

-- `take_prefix_at` and `take_prefix_if` give the prefix and what is left of the view.
pub record LineOps : Type 0 where
  pub take_prefix_at : ℕ → Bytes → Bytes × Bytes
  pub take_prefix_if : (ℕ → Bool) → Bytes → Bytes × Bytes
  pub ltrim_if : (ℕ → Bool) → Bytes → Bytes
  pub rtrim_if : (ℕ → Bool) → Bytes → Bytes
  pub trim_if : (ℕ → Bool) → Bytes → Bytes
  pub remove_suffix_if : (ℕ → Bool) → Bytes → Bytes
  pub starts_with_nocase : Bytes → Bytes → Bool

-- The text before the first match, and that behind it; all of the text without a match.
abbrev pub split_if : (ℕ → Bool) → Bytes → Bytes × Bytes
split_if p [] = ([], [])
split_if p (c ∷ cs) =
    let (front, back) = split_if p cs in if p c then ([], cs) else (c ∷ front, back)

abbrev pub drop_while : (ℕ → Bool) → Bytes → Bytes
drop_while p [] = []
drop_while p (c ∷ cs) = let rest = drop_while p cs in if p c then rest else c ∷ cs

-- Without the matches at the end.
abbrev pub trim_end : (ℕ → Bool) → Bytes → Bytes
trim_end p [] = []
trim_end p (c ∷ cs) =
    let rest = trim_end p cs in if is_empty rest then (if p c then [] else c ∷ []) else c ∷ rest

pub record LineLaws (lines : LineOps) : Type 0 where
  pub at_splits : (c : ℕ) (view : Bytes) → lines.take_prefix_at c view ≡ split_if (λ d. d == c) view
  pub if_splits : (p : ℕ → Bool) (view : Bytes) → lines.take_prefix_if p view ≡ split_if p view
  pub ltrim_drops : (p : ℕ → Bool) (view : Bytes) → lines.ltrim_if p view ≡ drop_while p view
  pub rtrim_cuts : (p : ℕ → Bool) (view : Bytes) → lines.rtrim_if p view ≡ trim_end p view
  pub trim_both :
      (p : ℕ → Bool) (view : Bytes) → lines.trim_if p view ≡ trim_end p (drop_while p view)
  pub suffix_removed :
      (p : ℕ → Bool) (view : Bytes) (c : ℕ)
      → p c ≡ true
      → lines.remove_suffix_if p (view ++ (c ∷ [])) ≡ view
