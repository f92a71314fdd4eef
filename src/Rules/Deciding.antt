-- ===== src/Rules/Deciding.antt =====
-- `test_tv` decides `Matches`, up to case where the rule asks for it.
use proxy_verifier.Base.{
  ℕ, ◌-◌, ◌≤◌, ◌<◌, Bytes, Bool, true, false, not, [], ◌∷◌, ◌++◌, map, ◌==◌, ltb, ◌≡◌, ◌≢◌, ◌↔◌,
  inl, inr, refl, sym, ap, ◌∙◌, Bool-cases, length, length-append, length-map, length-take,
  length-drop, take, drop, take-append, drop-append, map-take, map-drop, map-split, append-nil,
  arith, tolower, if◌then◌else◌,
}
use proxy_verifier.Rules.Defs.{RuleBase, SubstrKind, contains, prefix, suffix, invert_if_applicable}
use proxy_verifier.Rules.Evaluate.{test_tv}
use proxy_verifier.Rules.Matching.{
  Matches, Matches-length-le, by_key, search_le, search_sound, search_complete, find_sound,
  find_complete,
}
use proxy_verifier.Rules.Search.{search_offset, same_nocase}
use proxy_verifier.Swoc.{TextOps, TextLaws}

-- Containment in a window of the text's own length is equality.
window_eq :
    (window text : Bytes)
    → length window ≡ length text
    → Matches contains window text
    → window ≡ text
window_eq window text h ([], [], e) = e ∙ append-nil text
window_eq window text h ([], r ∷ rest, e) =
    absurd (omega (arith, ap length e, length-append text (r ∷ rest)))
window_eq window text h (f ∷ front, rest, e) =
    absurd (omega (arith, ap length e, length-append front (text ++ rest), length-append text rest))

module _ (key : ℕ → ℕ) where
  window_iff :
      (window text : Bytes)
      → length window ≡ length text
      → text ≢ []
      → ((search_offset (by_key key) window text == length text) ≡ false)
        ↔ (map key window ≡ map key text)
  window_iff window text h ne = (
    λ miss.
        window_eq (map key window) (map key text)
          (omega (arith, length-map key window, length-map key text))
          (search_sound key window text (ground (arith, search_le key window text))),
    λ same. ground (
      arith,
      search_complete key window text ne ([], [], same ∙ sym (append-nil (map key text))),
    ),
  )

  contains_iff :
      (value text : Bytes)
      → text ≢ []
      → ((search_offset (by_key key) value text == length value) ≡ false)
        ↔ Matches contains (map key value) (map key text)
  contains_iff value text ne = (
    λ found. search_sound key value text (ground (arith, search_le key value text)),
    λ m. ground (arith, search_complete key value text ne m),
  )

  -- The window that the code searches is the front of the value, or its back.
  prefix_iff :
      (value text : Bytes)
      → length text ≤ length value
      → text ≢ []
      → ((search_offset (by_key key) (take (length text) value) text == length text) ≡ false)
        ↔ Matches prefix (map key value) (map key text)
  prefix_iff value text fits ne =
      let n = length text in
      let window = window_iff (take n value) text (omega (arith, length-take n value)) ne in
      (
        λ found. (
          map key (drop n value),
          map-split key n value ∙ ap (λ w. w ++ map key (drop n value)) (window.0 found),
        ),
        λ (rest, e). window.1 (
            map-take key n value
            ∙ ap (take n) e
            ∙ take-append n (map key text) rest (sym (length-map key text))),
      )

  suffix_iff :
      (value text : Bytes)
      → length text ≤ length value
      → text ≢ []
      → ((search_offset (by_key key) (drop (length value - length text) value) text == length text)
          ≡ false)
        ↔ Matches suffix (map key value) (map key text)
  suffix_iff value text fits ne =
      let n = length value - length text in
      let window = window_iff (drop n value) text (omega (arith, length-drop n value)) ne in
      (
        λ found. (
          map key (take n value),
          map-split key n value ∙ ap (λ w. map key (take n value) ++ w) (window.0 found),
        ),
        λ (front, e). window.1 (
            map-drop key n value
            ∙ ap (drop n) e
            ∙ drop-append n front (map key text) (
                omega (
                  arith,
                  ap length e,
                  length-append front (map key text),
                  length-map key text,
                  length-map key value,
                ))),
      )

-- The letters as the rule compares them.
unfoldable pub fold : RuleBase → Bytes → Bytes
fold b s = if b.is_nocase then map tolower s else s

-- A text that the searches treat as the options say: `std::search` finds an empty text at the end
-- of an empty window, and an inverted `contains` reports a text longer than the value as found.
abbrev pub IsRegular : SubstrKind → RuleBase → Bytes → Bytes → Type 0
IsRegular contains b value text =
    (b.is_nocase ≡ true → text ≢ []) × (b.is_inverted ≡ true → length text ≤ length value)
IsRegular kind b value text = b.is_nocase ≡ true → text ≢ []

length-fold : (b : RuleBase) (s : Bytes) → length (fold b s) ≡ length s
unfolding fold
length-fold b s = ground (arith, length-map tolower s)

not_longer :
    (kind : SubstrKind) (b : RuleBase) (value text : Bytes)
    → ltb (length value) (length text) ≡ true
    → Matches kind (fold b value) (fold b text)
    → ⊥
not_longer kind b value text long m = ground (
  arith,
  Matches-length-le kind (fold b value) (fold b text) m,
  length-fold b value,
  length-fold b text,
)

-- A test that fails on a text longer than the value, and else decides.
by_length :
    (kind : SubstrKind) (b : RuleBase) (value text : Bytes) (early late : Bool)
    → (length value < length text → early ≡ true)
    → (length text ≤ length value → (late ≡ false) ↔ Matches kind (fold b value) (fold b text))
    → ((if ltb (length value) (length text) then early else late) ≡ false)
      ↔ Matches kind (fold b value) (fold b text)
by_length kind b value text early late long fits =
    elim (Bool-cases (ltb (length value) (length text))) [
      | inl longer ↦ rw longer (
        λ e. ground (arith, long (ground arith)),
        λ m. absurd (not_longer kind b value text longer m),
      )
      | inr shorter ↦ rw shorter (fits (ground arith))
    ]

-- The case option picks the test and the folding together.
by_case :
    (kind : SubstrKind) (b : RuleBase) (value text : Bytes) (nocase case : Bool)
    → (b.is_nocase ≡ true → (nocase ≡ false) ↔ Matches kind (map tolower value) (map tolower text))
    → ((case ≡ false) ↔ Matches kind value text)
    → ((if b.is_nocase then nocase else case) ≡ false) ↔ Matches kind (fold b value) (fold b text)
unfolding fold
by_case kind b value text nocase case lower exact = elim (Bool-cases b.is_nocase) [
  | inl e ↦ rw e (lower e)
  | inr e ↦ rw e exact
]

not_iff : {P : Type 0} (x : Bool) → (x ≡ true) ↔ P → (not x ≡ false) ↔ P
not_iff true h = (λ e. h.0 refl, λ p. refl)
not_iff false h = (λ e. cc, λ p. ground (arith, h.1 p))

module _ {ops : TextOps} (laws : TextLaws ops) where
  -- `test_tv` finds no failure exactly for the values that match, up to the two irregular cases.
  pub test_tv_iff :
      (kind : SubstrKind) (b : RuleBase) (value text : Bytes)
      → IsRegular kind b value text
      → (test_tv ops kind b value text ≡ false) ↔ Matches kind (fold b value) (fold b text)
  unfolding test_tv invert_if_applicable same_nocase
  test_tv_iff contains b value text r =
      by_length contains b value text _ _ (λ h. ground (arith, r.1))
        λ fits.
          by_case contains b value text _ _ (λ e. contains_iff tolower value text (r.0 e))
            (find_sound value text, find_complete value text)
  test_tv_iff prefix b value text r =
      by_length prefix b value text _ _ (λ h. refl)
        λ fits.
          by_case prefix b value text _ _ (λ e. prefix_iff tolower value text fits (r e))
            (not_iff _ (laws.starts_with_iff value text))
  test_tv_iff suffix b value text r =
      by_length suffix b value text _ _ (λ h. refl)
        λ fits.
          by_case suffix b value text _ _ (λ e. suffix_iff tolower value text fits (r e))
            (not_iff _ (laws.ends_with_iff value text))
