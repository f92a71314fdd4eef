-- ===== src/Localizer/Names.antt =====
-- The state of `Localizer` and its operations. The arena is memory alone: a view is its bytes.
use proxy_verifier.Base.{
  Bytes, Bool, true, false, List, [], ◌∷◌, ◌++◌, Option, none, some, is_eq, tolower, map,
  if◌then◌else◌,
}
use proxy_verifier.Swoc.{TextOps}

pub record Localizer : Type 0 where
  pub names : List Bytes
  pub frozen : Bool

abbrev pub new_localizer : Localizer
new_localizer = record { names = []; frozen = false }

-- What an operation gives; `none` is a failed assertion.
abbrev pub Localized : Type 0
Localized = Option (Bytes × Localizer)

unfoldable pub freeze_localization : Localizer → Localizer
freeze_localization l = record l { frozen = true }

module _ (ops : TextOps) where
  -- `_names.find(text)`
  unfoldable pub find_name : Bytes → List Bytes → Option Bytes
  find_name text [] = none
  find_name text (name ∷ names) =
      let later = find_name text names in
      if is_eq (ops.strcasecmp name text) then some name else later

  -- `_names.insert(local)`
  abbrev pub insert_name : Bytes → List Bytes → List Bytes
  insert_name local names = insert_after (find_name local names)
    where
      insert_after : Option Bytes → List Bytes
      insert_after none = local ∷ names
      insert_after (some name) = names

  unfoldable pub localize_helper : Localizer → Bytes → Bool → Localized
  localize_helper l view should_lower =
      let local = if should_lower then map tolower view else view in
      let names = if should_lower then insert_name local l.names else l.names in
      if l.frozen then none else some (local, record l { names = names })

  unfoldable pub localize : Localizer → Bytes → Localized
  unfolding localize_helper
  localize l view = localize_helper l view false

  unfoldable pub localize_lower : Localizer → Bytes → Localized
  unfolding localize_helper find_name
  localize_lower l view = found (find_name view l.names)
    where
      found : Option Bytes → Localized
      found (some spot) = some (spot, l)
      found none = localize_helper l view true

  -- The overloads for C strings: the view has the closing byte as well.
  unfoldable pub localize_c_string : Localizer → Bytes → Localized
  unfolding localize
  localize_c_string l view = localize l (view ++ (0 ∷ []))

  unfoldable pub localize_lower_c_string : Localizer → Bytes → Localized
  unfolding localize_lower
  localize_lower_c_string l view = localize_lower l (view ++ (0 ∷ []))
