-- ===== src/Message/Lines.antt =====
-- Facts about the views of lines.
use proxy_verifier.Base.{
  ℕ, ◌≤◌, Bytes, Bool, true, false, [], ◌∷◌, ◌++◌, ◌≡◌, refl, inl, inr, Bool-cases, All, is_space,
  is_empty, length, arith, if◌then◌else◌,
}
use proxy_verifier.Message.Text.{split_if, drop_while, trim_end}

-- No byte of the text is a match.
abbrev pub Free : (ℕ → Bool) → Bytes → Type 0
Free p = All (λ c. p c ≡ false)

pub split_if-append :
    (p : ℕ → Bool) (front : Bytes) (c : ℕ) (back : Bytes)
    → Free p front
    → p c ≡ true
    → split_if p (front ++ (c ∷ back)) ≡ (front, back)
split_if-append p [] c back free e = rw e refl
split_if-append p (d ∷ front) c back free e =
    rw (free.0, split_if-append p front c back free.1 e) refl

pub split_if-Free : (p : ℕ → Bool) (front : Bytes) → Free p front → split_if p front ≡ (front, [])
split_if-Free p [] free = refl
split_if-Free p (d ∷ front) free = rw (free.0, split_if-Free p front free.1) refl

-- The rest is no longer than the view, and shorter than one that is not empty.
pub length-split_if :
    (p : ℕ → Bool) (c : ℕ) (view : Bytes) → length (split_if p (c ∷ view)).1 ≤ length view
length-split_if p c [] = elim (Bool-cases (p c)) [
  | inl e ↦ rw e (omega arith)
  | inr e ↦ rw e (omega arith)
]
length-split_if p c (d ∷ view) = elim (Bool-cases (p c)) [
  | inl e ↦ rw e (omega arith)
  | inr e ↦ rw e (omega (arith, length-split_if p d view))
]

pub trim_end_space : (p : ℕ → Bool) (end : Bytes) → All (λ c. p c ≡ true) end → trim_end p end ≡ []
trim_end_space p [] spaces = refl
trim_end_space p (c ∷ end) spaces = rw (trim_end_space p end spaces.1, spaces.0) refl

pub trim_end-append :
    (p : ℕ → Bool) (front end : Bytes)
    → All (λ c. p c ≡ true) end
    → trim_end p (front ++ end) ≡ trim_end p front
trim_end-append p [] end spaces = trim_end_space p end spaces
trim_end-append p (c ∷ front) end spaces = rw (trim_end-append p front end spaces) refl

-- A byte that is no match keeps what stands before it.
pub trim_end_behind :
    (p : ℕ → Bool) (front : Bytes) (c : ℕ) (back : Bytes)
    → p c ≡ false
    → trim_end p (front ++ (c ∷ back)) ≡ front ++ (c ∷ trim_end p back)
trim_end_behind p [] c back e = at (trim_end p back)
  where
    at :
        (rest : Bytes)
        → (if is_empty rest then (if p c then [] else c ∷ []) else c ∷ rest) ≡ c ∷ rest
    at [] = rw e refl
    at (d ∷ rest) = refl
trim_end_behind p (d ∷ front) c back e = rw (trim_end_behind p front c back e) (at front)
  where
    at :
        (f : Bytes)
        → (if is_empty (f ++ (c ∷ trim_end p back))
            then (if p d then [] else d ∷ [])
            else d ∷ (f ++ (c ∷ trim_end p back)))
          ≡ d ∷ (f ++ (c ∷ trim_end p back))
    at [] = refl
    at (g ∷ f) = refl

-- A text without space at its begin and its end.
abbrev pub IsTrimmed : Bytes → Type 0
IsTrimmed value = (drop_while is_space value ≡ value) × (trim_end is_space value ≡ value)

-- Space before a trimmed text and at its end is taken away again.
pub trim_around :
    (value end : Bytes)
    → IsTrimmed value
    → All (λ c. is_space c ≡ true) end
    → trim_end is_space (drop_while is_space (trim_end is_space (b' ' ∷ (value ++ end)))) ≡ value
unfolding is_space
trim_around [] end trimmed spaces = rw (trim_end_space is_space end spaces) refl
trim_around (c ∷ cs) end trimmed spaces =
    rw (trim_end-append is_space (c ∷ cs) end spaces, trimmed.1) (rw trimmed.0 trimmed.1)
