-- ===== src/Localizer/Encoded.antt =====
-- `localize` of a text with an encoding.
use proxy_verifier.Base.{ℕ, ◌%◌, Bytes, ◌&&◌, [], ◌∷◌, none, some, ◌==◌, is_xdigit, if◌then◌else◌}
use proxy_verifier.Localizer.Names.{Localizer, Localized, localize}
use proxy_verifier.Swoc.{TextOps}

pub data Encoding : Type 0 where
  text uri : Encoding

-- The loop of `localize` on URI text; `svto_radix` is the value of two digits, stored in a `char`.
unfoldable pub decode_uri : (Bytes → ℕ) → Bytes → Bytes
decode_uri svto_radix [] = []
decode_uri svto_radix (c ∷ []) = c ∷ []
decode_uri svto_radix (c ∷ d ∷ []) = c ∷ d ∷ []
decode_uri svto_radix (c ∷ d ∷ e ∷ rest) =
    let decoded = (svto_radix (d ∷ e ∷ []) % 256) ∷ decode_uri svto_radix rest in
    let copied = c ∷ decode_uri svto_radix (d ∷ e ∷ rest) in
    if (c == b'%') && (is_xdigit d && is_xdigit e) then decoded else copied

-- `localize` with an encoding.
unfoldable pub localize_encoded : TextOps → (Bytes → ℕ) → Localizer → Bytes → Encoding → Localized
unfolding localize decode_uri
localize_encoded ops svto_radix l view uri =
    if l.frozen then none else some (decode_uri svto_radix view, l)
localize_encoded ops svto_radix l view text = if l.frozen then none else localize ops l view
