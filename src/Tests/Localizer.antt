-- ===== src/Tests/Localizer.antt =====
-- Names and percent-encoded text.
use proxy_verifier.Base.{
  false, [], ◌∷◌, none, some, ◌≡◌, refl, codes, is_xdigit, arith, lex, tolower,
}
use proxy_verifier.Chunk.Codex.{hex_value_from, digit_value}
use proxy_verifier.Localizer.Decoding.{IsRadix16, encode_uri, decode_uri-encode_uri}
use proxy_verifier.Localizer.Encoded.{decode_uri}
use proxy_verifier.Localizer.Lowering.{Lowers, localize_lower-Lowers}
use proxy_verifier.Localizer.Names.{
  Localizer, localize_lower, localize_helper, find_name, freeze_localization,
}
use proxy_verifier.Tests.Text.{text_ops, text_laws}

abbrev with_host : Localizer
with_host = record { names = codes "host" ∷ []; frozen = false }

-- A known name is found after freezing, an unknown one is a failed assertion.
known_name :
    localize_lower text_ops (freeze_localization with_host) (codes "HOST")
    ≡ some (codes "host", freeze_localization with_host)
unfolding localize_lower localize_helper find_name freeze_localization lex tolower
known_name = refl

unknown_name : localize_lower text_ops (freeze_localization with_host) (codes "Via") ≡ none
unfolding localize_lower localize_helper find_name freeze_localization lex tolower
unknown_name = refl

localize_lower-Lowers_example :
    Lowers text_ops with_host (codes "Via") (localize_lower text_ops with_host (codes "Via"))
unfolding tolower
localize_lower-Lowers_example = localize_lower-Lowers text_laws with_host (codes "Via") (refl, tt)

decodes : decode_uri (hex_value_from 0) (codes "a%20b%2") ≡ codes "a b%2"
unfolding decode_uri hex_value_from digit_value is_xdigit
decodes = refl

radix : IsRadix16 (hex_value_from 0)
radix d e high low = refl

decode_uri-encode_uri_example :
    decode_uri (hex_value_from 0) (encode_uri is_xdigit (codes "a b%")) ≡ codes "a b%"
decode_uri-encode_uri_example =
    decode_uri-encode_uri (hex_value_from 0) radix is_xdigit (codes "a b%")
      (omega arith, (omega arith, (omega arith, (omega arith, tt))))
