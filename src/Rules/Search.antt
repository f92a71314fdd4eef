-- ===== src/Rules/Search.antt =====
-- The searches of the standard library that `SubstrCheck::test_tv` calls.
use proxy_verifier.Base.{
  ℕ, suc, Bytes, Bool, true, false, ◌&&◌, [], ◌∷◌, Option, none, some, ◌==◌, tolower, if◌then◌else◌,
}

module _ (same : ℕ → ℕ → Bool) where
  -- The elements of `text` pair up with the first elements of `view`.
  unfoldable pub matches_front : Bytes → Bytes → Bool
  matches_front [] view = true
  matches_front (t ∷ text) [] = false
  matches_front (t ∷ text) (v ∷ view) = same v t && matches_front text view

  -- `std::search`: the offset of the first occurrence, or of the end.
  unfoldable pub search_offset : Bytes → Bytes → ℕ
  unfolding matches_front
  search_offset [] text = 0
  search_offset (v ∷ view) text =
      if matches_front text (v ∷ view) then 0 else suc (search_offset view text)

-- The predicate that the calls pass to `std::search`.
unfoldable pub same_nocase : ℕ → ℕ → Bool
same_nocase l r = tolower l == tolower r

abbrev pub same_byte : ℕ → ℕ → Bool
same_byte l r = l == r

-- One place further to the right.
abbrev pub shifted : Option ℕ → Option ℕ
shifted none = none
shifted (some i) = some (suc i)

-- `std::string_view::find`; `none` is `npos`.
unfoldable pub find_text : Bytes → Bytes → Option ℕ
unfolding matches_front
find_text [] text = if matches_front same_byte text [] then some 0 else none
find_text (v ∷ view) text =
    if matches_front same_byte text (v ∷ view) then some 0 else shifted (find_text view text)

-- `find(text) == npos`
abbrev pub is_npos : Option ℕ → Bool
is_npos none = true
is_npos (some i) = false
