-- ===== src/Localizer/Lowering.antt =====
-- `localize_lower` lowers its text, cached or not.
use proxy_verifier.Base.{
  ℕ, Bytes, true, List, [], ◌∷◌, Option, none, some, ◌≡◌, refl, sym, subst, ◌∙◌, inl, inr,
  Bool-cases, All, is_eq, lex-eq_iff, lex_self, Option-cases, tolower, map, arith,
}
use proxy_verifier.Localizer.Names.{
  Localizer, Localized, find_name, localize_helper, localize_lower,
}
use proxy_verifier.Swoc.{TextOps, TextLaws}

-- A text without capitals.
abbrev pub IsLower : Bytes → Type 0
IsLower text = map tolower text ≡ text

tolower_twice : (c : ℕ) → tolower (tolower c) ≡ tolower c
unfolding tolower
tolower_twice c = ground arith

map-tolower-IsLower : (view : Bytes) → IsLower (map tolower view)
map-tolower-IsLower [] = refl
map-tolower-IsLower (c ∷ view) = rw (tolower_twice c, map-tolower-IsLower view) refl

abbrev pub KeepsLower : Localizer → Type 0
KeepsLower l = All IsLower l.names

-- What is found is the text in lower case.
abbrev IsFound : Bytes → Option Bytes → Type 0
IsFound view none = Unit
IsFound view (some spot) = spot ≡ map tolower view

-- What `localize_lower` promises of its result.
abbrev pub Lowers : TextOps → Localizer → Bytes → Localized → Type 0
Lowers ops l view none = (l.frozen ≡ true) × (find_name ops view l.names ≡ none)
Lowers ops l view (some (local, l')) =
    (local ≡ map tolower view) × KeepsLower l' × (find_name ops view l'.names ≡ some local)

module _ {ops : TextOps} (laws : TextLaws ops) where
  find_name-lower :
      (view : Bytes) (names : List Bytes)
      → All IsLower names
      → IsFound view (find_name ops view names)
  unfolding find_name
  find_name-lower view [] h = tt
  find_name-lower view (name ∷ names) h = elim (Bool-cases (is_eq (ops.strcasecmp name view))) [
    | inl same ↦
        rw same (sym h.0 ∙ (lex-eq_iff _ _).0 (sym (laws.strcasecmp_lex name view) ∙ ground arith))
    | inr other ↦ rw other (find_name-lower view names h.1)
  ]

  -- The spelling makes no difference to the search.
  find_name-tolower :
      (view : Bytes) (names : List Bytes)
      → find_name ops (map tolower view) names ≡ find_name ops view names
  unfolding find_name
  find_name-tolower view [] = refl
  find_name-tolower view (name ∷ names) =
      rw
        (
          laws.strcasecmp_lex name (map tolower view),
          map-tolower-IsLower view,
          laws.strcasecmp_lex name view,
          find_name-tolower view names,
        )
        refl

  find_name-added :
      (view : Bytes) (names : List Bytes)
      → find_name ops view (map tolower view ∷ names) ≡ some (map tolower view)
  unfolding find_name
  find_name-added view names =
      rw
        (
          laws.strcasecmp_lex (map tolower view) view,
          map-tolower-IsLower view,
          lex_self (map tolower view),
        )
        refl

  -- If all names kept are in lower case, `localize_lower` gives its text in lower case, cached or not,
  -- keeps that name for the next search, in any spelling, and keeps all names in lower case; it fails
  -- only if names are frozen and the text is not among them.
  pub localize_lower-Lowers :
      (l : Localizer) (view : Bytes) → KeepsLower l → Lowers ops l view (localize_lower ops l view)
  unfolding localize_lower localize_helper
  localize_lower-Lowers l view h = elim (Option-cases (find_name ops view l.names)) [
    | inl e ↦
        let unknown = find_name-tolower view l.names ∙ e in
        elim (Bool-cases l.frozen) [
          | inl f ↦ rw (e, f) (refl, e)
          | inr f ↦
              rw (e, f, unknown) (refl, (map-tolower-IsLower view, h), find_name-added view l.names)
        ]
    | inr (spot, e) ↦
        let lowered = subst (IsFound view) e (find_name-lower view l.names h) in
        rw e (lowered, h, e)
  ]
