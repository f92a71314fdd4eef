-- ===== src/Replay/Sessions.antt =====
-- What the handlers read of a session: `ReplayFileHandler::parse_for_protocol_node`, `parse_sni` and
-- `parse_alpn_protocols_node`.
use proxy_verifier.Base.{
  ℕ, suc, zero, ◌%◌, ◌<◌, ◌≤◌, Bytes, List, [], ◌∷◌, ◌++◌, Option, none, some, ◌≡◌, refl, ap, ◌∙◌,
  codes, is_eq, lex, length, length-map, take, drop, take-append, drop-append, map, All, arith,
  if◌then◌else◌,
}
use proxy_verifier.Replay.Yaml.{null, scalar, sequence, mapping, YamlOps}
use proxy_verifier.Session.Errata.{Severity, Rv}

-- The names of protocols, each behind a byte with its length.
abbrev pub alpn_text : List Bytes → Bytes
alpn_text [] = []
alpn_text (name ∷ names) = (length name % 256) ∷ name ++ alpn_text names

module _ {Node : Type 0} (yaml : YamlOps Node) where
  -- The loop over the elements.
  abbrev pub find_protocol : Bytes → List Node → Rv (Option Node)
  find_protocol name [] = (none, [])
  find_protocol name (element ∷ elements) =
      let later = find_protocol name elements in
      elim (yaml.kind element) [
        | mapping ↦ (elim (yaml.member element (codes "name")) [
          | none ↦ (none, Severity.error ∷ [])
          | some n ↦ if is_eq (lex (yaml.text n) name) then (some element, []) else later
        ])
        | scalar ↦ (none, Severity.error ∷ [])
        | sequence ↦ (none, Severity.error ∷ [])
        | null ↦ (none, Severity.error ∷ [])
      ]

  abbrev pub listed_protocol : Bytes → List Node → Rv (Option Node)
  listed_protocol name [] = (none, Severity.error ∷ [])
  listed_protocol name (element ∷ elements) = find_protocol name (element ∷ elements)

  -- `parse_for_protocol_node`
  unfoldable pub parse_for_protocol_node : Node → Bytes → Rv (Option Node)
  unfolding lex
  parse_for_protocol_node node name = elim (yaml.kind node) [
    | sequence ↦ listed_protocol name (yaml.elements node)
    | scalar ↦ (none, Severity.error ∷ [])
    | mapping ↦ (none, Severity.error ∷ [])
    | null ↦ (none, Severity.error ∷ [])
  ]

  -- `parse_sni`
  unfoldable pub parse_sni : Node → Rv Bytes
  parse_sni tls = elim (yaml.member tls (codes "sni")) [
    | none ↦ ([], [])
    | some n ↦ (elim (yaml.kind n) [
      | scalar ↦ (yaml.text n, [])
      | sequence ↦ ([], Severity.error ∷ [])
      | mapping ↦ ([], Severity.error ∷ [])
      | null ↦ ([], Severity.error ∷ [])
    ])
  ]

  -- `parse_alpn_protocols_node`
  unfoldable pub parse_alpn_protocols_node : Node → Rv Bytes
  parse_alpn_protocols_node tls = elim (yaml.member tls (codes "alpn-protocols")) [
    | none ↦ ([], [])
    | some n ↦ (elim (yaml.kind n) [
      | sequence ↦ (alpn_text (map yaml.text (yaml.elements n)), [])
      | scalar ↦ ([], Severity.error ∷ [])
      | mapping ↦ ([], Severity.error ∷ [])
      | null ↦ ([], Severity.error ∷ [])
    ])
  ]

-- A name is taken where the rest is read.
abbrev with_name : Bytes → Option (List Bytes) → Option (List Bytes)
with_name name none = none
with_name name (some names) = some (name ∷ names)

-- The reading of a protocol list (RFC 7301), as far as it is well formed.
unfoldable pub read_alpn : ℕ → Bytes → Option (List Bytes)
read_alpn rounds [] = some []
read_alpn zero (size ∷ rest) = none
read_alpn (suc rounds) (size ∷ rest) =
    with_name (take size rest) (read_alpn rounds (drop size rest))

read_alpn-alpn_text :
    (rounds : ℕ) (names : List Bytes)
    → All (λ name. length name < 256) names
    → length names ≤ rounds
    → read_alpn rounds (alpn_text names) ≡ some names
unfolding read_alpn
read_alpn-alpn_text rounds [] short fits = refl
read_alpn-alpn_text zero (name ∷ names) short fits = absurd (omega arith)
read_alpn-alpn_text (suc rounds) (name ∷ names) (short, more) fits =
    let size : length name % 256 ≡ length name = omega (arith, short) in
    let rest = alpn_text names in
    let later : read_alpn rounds (drop (length name % 256) (name ++ rest)) ≡ some names =
      ap (read_alpn rounds) (drop-append (length name % 256) name rest size)
      ∙ read_alpn-alpn_text rounds names more (omega (arith, fits)) in
    ap (with_name (take (length name % 256) (name ++ rest))) later
    ∙ ap (λ t. some (t ∷ names)) (take-append (length name % 256) name rest size)

-- If the node lists protocols with names of less than 256 bytes, the text that
-- `parse_alpn_protocols_node` gives is without an error, and read as a protocol list it is those names.
pub read_alpn-parse_alpn_protocols_node :
    {Node : Type 0} (yaml : YamlOps Node) (tls n : Node)
    → yaml.member tls (codes "alpn-protocols") ≡ some n
    → yaml.kind n ≡ sequence
    → All (λ name. length name < 256) (map yaml.text (yaml.elements n))
    → let result = parse_alpn_protocols_node yaml tls in
      (result.1 ≡ [])
      × (read_alpn (length (yaml.elements n)) result.0 ≡ some (map yaml.text (yaml.elements n)))
unfolding parse_alpn_protocols_node
read_alpn-parse_alpn_protocols_node yaml tls n e k short =
    rw (parse_alpn_protocols_node, e, k)
      (
        refl,
        read_alpn-alpn_text (length (yaml.elements n)) (map yaml.text (yaml.elements n)) short
            (omega (arith, length-map yaml.text (yaml.elements n))),
      )
