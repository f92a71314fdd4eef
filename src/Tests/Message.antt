-- ===== src/Tests/Message.antt =====
-- A request, written and read.
use proxy_verifier.Base.{
  ℕ, ◌+◌, ◌-◌, ◌*◌, ◌/◌, ◌%◌, Bytes, Bool, true, false, ◌||◌, [], ◌∷◌, ◌++◌, some, ◌==◌, ◌≡◌, refl,
  codes, is_space, is_eq, lex, map, tolower, length, take, if◌then◌else◌,
}
use proxy_verifier.Fields.Defs.{no_fields}
use proxy_verifier.Message.Codec.{MessageOps, Parsing, serialize, parse_request}
use proxy_verifier.Message.Defs.{HttpHeader, new_header}
use proxy_verifier.Message.Request.{IsSendableRequest}
use proxy_verifier.Message.Codec.{parse_response}
use proxy_verifier.Message.Ending.{Ends, parse-Ends}
use proxy_verifier.Message.RoundTrip.{RequestRead, parse_request-serialize}
use proxy_verifier.Message.Text.{LineOps, LineLaws, split_if, drop_while, trim_end}
use proxy_verifier.Tests.Text.{text_ops}

abbrev any_match : (ℕ → Bool) → Bytes → Bool
any_match p [] = false
any_match p (c ∷ cs) = p c || any_match p cs

-- Without the last match and what follows it.
abbrev cut_last : (ℕ → Bool) → Bytes → Bytes
cut_last p [] = []
cut_last p (c ∷ cs) =
    let rest = cut_last p cs in if any_match p cs then c ∷ rest else (if p c then [] else c ∷ cs)

any_match-append :
    (p : ℕ → Bool) (view : Bytes) (c : ℕ) → p c ≡ true → any_match p (view ++ (c ∷ [])) ≡ true
any_match-append p [] c e = rw e refl
any_match-append p (d ∷ view) c e = rw (any_match-append p view c e) (at (p d))
  where
    at : (b : Bool) → (b || true) ≡ true
    at true = refl
    at false = refl

cut_last-append :
    (p : ℕ → Bool) (view : Bytes) (c : ℕ) → p c ≡ true → cut_last p (view ++ (c ∷ [])) ≡ view
cut_last-append p [] c e = rw e refl
cut_last-append p (d ∷ view) c e = rw (any_match-append p view c e, cut_last-append p view c e) refl

unfoldable pub line_ops : LineOps
unfolding lex
line_ops = record {
  take_prefix_at = λ c view. split_if (λ d. d == c) view;
  take_prefix_if = split_if;
  ltrim_if = drop_while;
  rtrim_if = trim_end;
  trim_if = λ p view. trim_end p (drop_while p view);
  remove_suffix_if = cut_last;
  starts_with_nocase =
      λ view text. is_eq (lex (map tolower (take (length text) view)) (map tolower text));
}

line_laws : LineLaws line_ops
unfolding line_ops
line_laws = record {
  at_splits = λ c view. refl;
  if_splits = λ p view. refl;
  ltrim_drops = λ p view. refl;
  rtrim_cuts = λ p view. refl;
  trim_both = λ p view. refl;
  suffix_removed = cut_last-append;
}

-- The number of a text, three digits of a number, and the field of a key format.
abbrev number_from : ℕ → Bytes → ℕ
number_from n [] = n
number_from n (c ∷ cs) = number_from (10 * n + (c - b'0')) cs

abbrev pub message_ops : MessageOps
message_ops = record {
  text = text_ops;
  lines = line_ops;
  svtou = number_from 0;
  decimal = λ n. (b'0' + n / 100 % 10) ∷ (b'0' + n / 10 % 10) ∷ (b'0' + n % 10) ∷ [];
  key_format = λ names. names (codes "field.uuid");
}

-- A request with two fields.
abbrev pub request : HttpHeader
request = record new_header {
  is_request = true;
  method = codes "GET";
  url = codes "/a";
  http_version = codes "1.1";
  fields_rules = record no_fields {
    fields_sequence = (codes "Host", codes "h") ∷ (codes "uuid", codes "7") ∷ [];
  };
}

request-IsSendableRequest : IsSendableRequest request
unfolding is_space
request-IsSendableRequest = record {
  request = refl;
  one_word = (refl, (refl, (refl, tt)));
  has_url = λ e. cc;
  one_word_url = (refl, (refl, tt));
  one_line = (refl, (refl, (refl, tt)));
  has_field = λ e. cc;
  fields = (
    record {
      named = λ e. cc;
      no_colon = (refl, (refl, (refl, (refl, tt))));
      one_line = (refl, (refl, (refl, (refl, tt))));
      one_line_value = (refl, tt);
      trimmed = (refl, refl);
    },
    (
      record {
        named = λ e. cc;
        no_colon = (refl, (refl, (refl, (refl, tt))));
        one_line = (refl, (refl, (refl, (refl, tt))));
        one_line_value = (refl, tt);
        trimmed = (refl, refl);
      },
      tt,
    ),
  );
}

parse_request-serialize_example :
    (r : Parsing) × (parse_request message_ops new_header (serialize message_ops request) ≡ some r)
    × RequestRead message_ops line_laws new_header request r
parse_request-serialize_example =
    parse_request-serialize message_ops line_laws new_header request request-IsSendableRequest

-- A text with a malformed field.
parse-Ends_example :
    Ends (
      parse_request message_ops new_header (
        codes "GET / HTTP/1.1"
        ++ (b'\r' ∷ b'\n' ∷ [])
        ++ codes ": v"
        ++ (b'\r' ∷ b'\n' ∷ b'\r' ∷ b'\n' ∷ [])))
    × Ends (
        parse_response message_ops new_header (
          codes "GET / HTTP/1.1"
          ++ (b'\r' ∷ b'\n' ∷ [])
          ++ codes ": v"
          ++ (b'\r' ∷ b'\n' ∷ b'\r' ∷ b'\n' ∷ [])))
parse-Ends_example = parse-Ends message_ops line_laws new_header (
    codes "GET / HTTP/1.1"
    ++ (b'\r' ∷ b'\n' ∷ [])
    ++ codes ": v"
    ++ (b'\r' ∷ b'\n' ∷ b'\r' ∷ b'\n' ∷ []))
