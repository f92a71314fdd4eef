-- ===== src/Rules/Matching.antt =====
-- What it means that a value contains a text, begins or ends with it, and that the searches of the
-- code decide it.
use proxy_verifier.Base.{
  ℕ, ◌≤◌, ◌<◌, Bytes, Bool, true, false, [], ◌∷◌, ◌++◌, map, ◌==◌, ◌≡◌, ◌≢◌, inl, inr, refl, sym,
  ap, ◌∙◌, Bool-cases, length, length-append, arith,
}
use proxy_verifier.Rules.Defs.{SubstrKind, contains, prefix, suffix}
use proxy_verifier.Rules.Search.{matches_front, search_offset, find_text, same_byte, is_npos}

abbrev pub Matches : SubstrKind → Bytes → Bytes → Type 0
Matches contains value text = (front : Bytes) × (rest : Bytes) × (value ≡ front ++ (text ++ rest))
Matches prefix value text = (rest : Bytes) × (value ≡ text ++ rest)
Matches suffix value text = (front : Bytes) × (value ≡ front ++ text)

pub map_id : (xs : Bytes) → map (λ c. c) xs ≡ xs
map_id [] = refl
map_id (x ∷ xs) = ap (◌∷◌ x) (map_id xs)

nil_of_length : (xs : Bytes) → length xs ≡ 0 → xs ≡ []
nil_of_length [] h = refl
nil_of_length (x ∷ xs) h = absurd (omega arith)

pub Matches-length-le :
    (kind : SubstrKind) (value text : Bytes) → Matches kind value text → length text ≤ length value
Matches-length-le contains value text (front, rest, e) =
    omega (arith, ap length e, length-append front (text ++ rest), length-append text rest)
Matches-length-le prefix value text (rest, e) = omega (arith, ap length e, length-append text rest)
Matches-length-le suffix value text (front, e) =
    omega (arith, ap length e, length-append front text)

-- Bytes are compared by a key: themselves, or their lower case.
module _ (key : ℕ → ℕ) where
  abbrev pub by_key : ℕ → ℕ → Bool
  by_key l r = key l == key r

  front_sound :
      (text view : Bytes)
      → matches_front by_key text view ≡ true
      → (rest : Bytes) × (map key view ≡ map key text ++ rest)
  unfolding matches_front
  front_sound [] view h = (map key view, refl)
  front_sound (t ∷ text) [] h = cc
  front_sound (t ∷ text) (v ∷ view) h =
      let tail : matches_front by_key text view ≡ true = ground arith in
      let (rest, e) = front_sound text view tail in (rest, ground (arith, e))

  front_complete :
      (text view rest : Bytes)
      → map key view ≡ map key text ++ rest
      → matches_front by_key text view ≡ true
  unfolding matches_front
  front_complete [] view rest e = refl
  front_complete (t ∷ text) [] rest e = cc
  front_complete (t ∷ text) (v ∷ view) rest e = ground (arith, front_complete text view rest)

  pub search_le : (view text : Bytes) → search_offset by_key view text ≤ length view
  unfolding search_offset
  search_le [] text = omega arith
  search_le (v ∷ view) text = ground (arith, search_le view text)

  pub search_sound :
      (view text : Bytes)
      → search_offset by_key view text < length view
      → Matches contains (map key view) (map key text)
  unfolding search_offset
  search_sound [] text h = elim h [ ]
  search_sound (v ∷ view) text h = elim (Bool-cases (matches_front by_key text (v ∷ view))) [
    | inl here ↦ let (rest, e) = front_sound text (v ∷ view) here in ([], rest, e)
    | inr later ↦
        let (front, rest, e) = search_sound view text (ground arith) in
        (key v ∷ front, rest, ap (◌∷◌ (key v)) e)
  ]

  pub search_complete :
      (view text : Bytes)
      → text ≢ []
      → Matches contains (map key view) (map key text)
      → search_offset by_key view text < length view
  unfolding search_offset
  search_complete [] [] ne m = absurd (ne refl)
  search_complete [] (t ∷ text) ne ([], rest, e) = cc
  search_complete [] (t ∷ text) ne (f ∷ front, rest, e) = cc
  search_complete (v ∷ view) text ne ([], rest, e) =
      rw (front_complete text (v ∷ view) rest e) (omega arith)
  search_complete (v ∷ view) text ne (f ∷ front, rest, e) =
      let tail : map key view ≡ front ++ (map key text ++ rest) = cc in
      ground (arith, search_complete view text ne (front, rest, tail))

bytes_sound :
    (text view : Bytes)
    → matches_front same_byte text view ≡ true
    → (rest : Bytes) × (view ≡ text ++ rest)
bytes_sound text view h =
    let (rest, e) = front_sound (λ c. c) text view h in
    (rest, sym (map_id view) ∙ e ∙ ap (λ t. t ++ rest) (map_id text))

bytes_complete :
    (text view rest : Bytes) → view ≡ text ++ rest → matches_front same_byte text view ≡ true
bytes_complete text view rest e =
    front_complete (λ c. c) text view rest
      (map_id view ∙ e ∙ sym (ap (λ t. t ++ rest) (map_id text)))

-- `find` decides containment with no exception.
pub find_sound :
    (view text : Bytes) → is_npos (find_text view text) ≡ false → Matches contains view text
unfolding find_text
find_sound [] text h = let (rest, e) = bytes_sound text [] (ground arith) in ([], rest, e)
find_sound (v ∷ view) text h = elim (Bool-cases (matches_front same_byte text (v ∷ view))) [
  | inl here ↦ let (rest, e) = bytes_sound text (v ∷ view) here in ([], rest, e)
  | inr later ↦
      let (front, rest, e) = find_sound view text (ground arith) in (v ∷ front, rest, ap (◌∷◌ v) e)
]

pub find_complete :
    (view text : Bytes) → Matches contains view text → is_npos (find_text view text) ≡ false
unfolding find_text
find_complete [] text ([], rest, e) = rw (bytes_complete text [] rest e)
find_complete [] text (f ∷ front, rest, e) = cc
find_complete (v ∷ view) text ([], rest, e) = rw (bytes_complete text (v ∷ view) rest e)
find_complete (v ∷ view) text (f ∷ front, rest, e) =
    let tail : view ≡ front ++ (text ++ rest) = cc in
    ground (arith, find_complete view text (front, rest, tail))
