-- ===== src/Replay/Accepted.antt =====
-- The lists of fields and rules that are well formed.
use proxy_verifier.Base.{
  Bytes, Bool, true, false, ◌&&◌, ◌||◌, List, [], ◌∷◌, Option, none, some, codes, lex, is_eq, map,
  tolower, is_empty, if◌then◌else◌,
}
use proxy_verifier.Replay.Yaml.{null, scalar, sequence, mapping, YamlOps}

-- A text is one of the names, without regard to case.
abbrev pub one_of : List Bytes → Bytes → Bool
one_of [] text = false
one_of (name ∷ names) text = is_eq (lex (map tolower name) (map tolower text)) || one_of names text

abbrev pub directives : List Bytes
directives =
    codes "equal"
    ∷ codes "present"
    ∷ codes "absent"
    ∷ codes "contains"
    ∷ codes "prefix"
    ∷ codes "suffix"
    ∷ []

abbrev pub is_directive : Bytes → Bool
is_directive = one_of directives

module _ {Node : Type 0} (yaml : YamlOps Node) where
  -- The third element, if there is one.
  abbrev pub accepts_type : Option Node → Bool
  accepts_type none = true
  accepts_type (some t) = is_directive (yaml.text t)

  abbrev pub is_listed : Node → Bool
  is_listed v = elim (yaml.kind v) [
    | scalar ↦ true
    | sequence ↦ true
    | mapping ↦ false
    | null ↦ false
  ]

  -- A directive with the value of its map, which is a scalar, a sequence or none.
  abbrev pub accepts_directive : Bytes → Option Node → Bool
  accepts_directive t none = is_empty t || is_directive t
  accepts_directive t (some v) = is_empty t || (is_directive t && is_listed v)

  -- Without a directive every map is taken, if equality is not assumed.
  abbrev pub accepts_map : Node → Bool → Bool
  accepts_map node assume = elim (yaml.member node (codes "as")) [
    | some n ↦ accepts_directive (yaml.text n) (yaml.member node (codes "value"))
    | none ↦ (elim (yaml.member node (codes "not")) [
      | some n ↦ accepts_directive (yaml.text n) (yaml.member node (codes "value"))
      | none ↦
          if assume
          then accepts_directive (codes "equal") (yaml.member node (codes "value"))
          else true
    ])
  ]

  abbrev pub accepts_value : Node → Option Node → Bool → Bool
  accepts_value value t assume = elim (yaml.kind value) [
    | scalar ↦ accepts_type t
    | sequence ↦ accepts_type t
    | mapping ↦ accepts_map value assume
    | null ↦ false
  ]

  abbrev pub accepts_entry : List Node → Bool → Bool
  accepts_entry (key ∷ value ∷ []) assume = accepts_value value none assume
  accepts_entry (key ∷ value ∷ t ∷ []) assume = accepts_value value (some t) assume
  accepts_entry _ assume = false

  abbrev pub accepts_node : Node → Bool → Bool
  accepts_node node assume = elim (yaml.kind node) [
    | sequence ↦ accepts_entry (yaml.elements node) assume
    | scalar ↦ false
    | mapping ↦ false
    | null ↦ false
  ]

  -- Every node is an entry of two or three elements with a value, and with a directive where it has one.
  abbrev pub accepts : List Node → Bool → Bool
  accepts [] assume = true
  accepts (node ∷ nodes) assume = accepts_node node assume && accepts nodes assume
