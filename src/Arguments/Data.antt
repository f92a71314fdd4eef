-- ===== src/Arguments/Data.antt =====
-- `Arguments` and `ArgumentData`: the map from a key to what the command line gave for it. The
-- action of a command is left out.
use proxy_verifier.Base.{
  Bytes, Bool, true, false, List, [], ◌∷◌, ◌++◌, Option, none, some, is_eq, lex, ◌≡◌, refl, inl,
  inr, Bool-cases, lex_self, if◌then◌else◌,
}

pub record ArgumentData : Type 0 where
  pub is_called : Bool
  pub env_value : Bytes
  pub values : List Bytes

abbrev pub empty_data : ArgumentData
empty_data = record { is_called = false; env_value = []; values = [] }

abbrev pub Arguments : Type 0
Arguments = List (Bytes × ArgumentData)

unfoldable pub find_data : Bytes → Arguments → Option ArgumentData
find_data key [] = none
find_data key ((k, d) ∷ ret) = if is_eq (lex k key) then some d else find_data key ret

-- A change of `_data_map[key]`, which is there behind the access.
unfoldable pub update_data : Bytes → (ArgumentData → ArgumentData) → Arguments → Arguments
update_data key f [] = (key, f empty_data) ∷ []
update_data key f ((k, d) ∷ ret) =
    if is_eq (lex k key) then (k, f d) ∷ ret else (k, d) ∷ update_data key f ret

-- `Arguments::append`
unfoldable pub append_data : Bytes → ArgumentData → Arguments → Arguments
unfolding update_data
append_data key value ret = update_data key (λ d. value) ret

-- `Arguments::append_arg`
unfoldable pub append_arg : Bytes → Bytes → Arguments → Arguments
unfolding update_data
append_arg key value ret = update_data key (λ d. record d { values = d.values ++ (value ∷ []) }) ret

-- `Arguments::set_env`
unfoldable pub set_env : Bytes → Bytes → Arguments → Arguments
unfolding update_data
set_env key value ret = update_data key (λ d. record d { env_value = value }) ret

-- `Arguments::get`: what is there is called from now on.
unfoldable pub get : Bytes → Arguments → ArgumentData × Arguments
unfolding find_data update_data
get name ret = elim (find_data name ret) [
  | none ↦ (empty_data, ret)
  | some d ↦
      (record d { is_called = true }, update_data name (λ d'. record d' { is_called = true }) ret)
]

abbrev pub or_empty : Option ArgumentData → ArgumentData
or_empty none = empty_data
or_empty (some d) = d

-- What is found behind a change.
pub find_data-update_data :
    (key : Bytes) (f : ArgumentData → ArgumentData) (ret : Arguments)
    → find_data key (update_data key f ret) ≡ some (f (or_empty (find_data key ret)))
unfolding find_data update_data
find_data-update_data key f [] = rw (lex_self key) refl
find_data-update_data key f ((k, d) ∷ ret) = elim (Bool-cases (is_eq (lex k key))) [
  | inl e ↦ rw (e, e) refl
  | inr e ↦ rw (e, e) (find_data-update_data key f ret)
]
