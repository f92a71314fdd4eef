-- ===== src/Localizer/Decoding.antt =====
-- Percent-encoded text is decoded to the text it stands for.
use proxy_verifier.Base.{
  ℕ, ◌+◌, ◌/◌, ◌%◌, ◌<◌, Bytes, Bool, true, false, [], ◌∷◌, ◌==◌, ◌≡◌, refl, ap, ◌∙◌, inl, inr,
  Bool-cases, All, is_xdigit, leb, arith, if◌then◌else◌,
}
use proxy_verifier.Chunk.Codex.{digit_value, hex_value_from}
use proxy_verifier.Localizer.Encoded.{decode_uri}

-- The value of two hexadecimal digits.
abbrev pub IsRadix16 : (Bytes → ℕ) → Type 0
IsRadix16 svto_radix =
    (d e : ℕ)
    → is_xdigit d ≡ true
    → is_xdigit e ≡ true
    → svto_radix (d ∷ e ∷ []) ≡ hex_value_from 0 (d ∷ e ∷ [])

abbrev hex_digit : ℕ → ℕ
hex_digit d = if leb d 9 then b'0' + d else 55 + d

-- The bytes that `kept` accepts stand for themselves, a percent sign never does.
unfoldable pub encode_uri : (ℕ → Bool) → Bytes → Bytes
encode_uri kept [] = []
encode_uri kept (c ∷ cs) =
    let rest = encode_uri kept cs in
    if c == b'%'
    then b'%' ∷ hex_digit (c / 16) ∷ hex_digit (c % 16) ∷ rest
    else if kept c
    then c ∷ rest
    else b'%' ∷ hex_digit (c / 16) ∷ hex_digit (c % 16) ∷ rest

is_xdigit-hex_digit : (d : ℕ) → d < 16 → is_xdigit (hex_digit d) ≡ true
unfolding is_xdigit
is_xdigit-hex_digit d small = ground arith

digit_value-hex_digit : (d : ℕ) → d < 16 → digit_value (hex_digit d) ≡ d
unfolding digit_value
digit_value-hex_digit d small = ground arith

module _ (svto_radix : Bytes → ℕ) (radix : IsRadix16 svto_radix) where
  decode_kept :
      (c : ℕ) (rest : Bytes)
      → (c == b'%') ≡ false
      → decode_uri svto_radix (c ∷ rest) ≡ c ∷ decode_uri svto_radix rest
  unfolding decode_uri
  decode_kept c [] other = refl
  decode_kept c (d ∷ []) other = refl
  decode_kept c (d ∷ e ∷ rest) other = rw other refl

  decode_escape :
      (c : ℕ) (rest : Bytes)
      → c < 256
      → decode_uri svto_radix (b'%' ∷ hex_digit (c / 16) ∷ hex_digit (c % 16) ∷ rest)
        ≡ c ∷ decode_uri svto_radix rest
  unfolding decode_uri hex_value_from
  decode_escape c rest small =
      let high = is_xdigit-hex_digit (c / 16) (omega arith) in
      let low = is_xdigit-hex_digit (c % 16) (omega arith) in
      let value : svto_radix (hex_digit (c / 16) ∷ hex_digit (c % 16) ∷ []) % 256 ≡ c = omega (
        arith,
        radix _ _ high low,
        digit_value-hex_digit (c / 16) (omega arith),
        digit_value-hex_digit (c % 16) (omega arith),
      ) in
      rw (high, low, value) refl

  -- A text of bytes is got back from its percent-encoding, whatever bytes other than the percent sign
  -- stand for themselves.
  pub decode_uri-encode_uri :
      (kept : ℕ → Bool) (view : Bytes)
      → All (λ c. c < 256) view
      → decode_uri svto_radix (encode_uri kept view) ≡ view
  unfolding decode_uri encode_uri
  decode_uri-encode_uri kept [] h = refl
  decode_uri-encode_uri kept (c ∷ view) h =
      let later = decode_uri-encode_uri kept view h.1 in
      let escaped = decode_escape c (encode_uri kept view) h.0 ∙ ap (λ t. c ∷ t) later in
      elim (Bool-cases (c == b'%')) [
        | inl percent ↦ rw percent escaped
        | inr other ↦ elim (Bool-cases (kept c)) [
          | inl k ↦
              rw (other, k) (decode_kept c (encode_uri kept view) other ∙ ap (λ t. c ∷ t) later)
          | inr k ↦ rw (other, k) escaped
        ]
      ]
