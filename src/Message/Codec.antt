-- ===== src/Message/Codec.antt =====
-- The text of a message: `parse_request`, `parse_response` and `serialize`.
use proxy_verifier.Base.{
  ℕ, zero, suc, ◌-◌, ◌%◌, ◌^◌, Bytes, Bool, true, false, ◌&&◌, ◌||◌, List, [], ◌∷◌, ◌++◌, Option,
  none, some, ltb, ◌==◌, is_eq, lex, codes, tolower, is_space, is_empty, length, take, drop,
  if◌then◌else◌,
}
use proxy_verifier.Fields.Defs.{add_field}
use proxy_verifier.Message.Defs.{HttpHeader, transaction_key_not_set, find_field}
use proxy_verifier.Message.Text.{LineOps}
use proxy_verifier.Rules.Search.{find_text}
use proxy_verifier.Session.Errata.{Errata, error}
use proxy_verifier.Session.Headers.{http_eoh}
use proxy_verifier.Swoc.{TextOps}
use proxy_verifier.Url.Parse.{parse_url}

-- `HttpHeader::ParseResult`
pub data ParseResult : Type 0 where
  parse_ok parse_error parse_incomplete : ParseResult

-- The header as it is filled, the result and the messages.
pub record Parsing : Type 0 where
  pub header : HttpHeader
  pub result : ParseResult
  pub errata : Errata

-- `icompare`, with `icompare_pred` as the test of two bytes.
unfoldable pub icompare : Bytes → Bytes → Bool
icompare [] [] = true
icompare [] (d ∷ b) = false
icompare (c ∷ a) [] = false
icompare (c ∷ a) (d ∷ b) = tolower c == tolower d && icompare a b

-- What the code takes from libraries: text comparisons, views of lines, numbers, the printing of a
-- number, and the formatting of `_key_format` with the values of its names.
pub record MessageOps : Type 0 where
  pub text : TextOps
  pub lines : LineOps
  pub svtou : Bytes → ℕ
  pub decimal : ℕ → Bytes
  pub key_format : (Bytes → Bytes) → Bytes

abbrev pub http_eol_text : Bytes
http_eol_text = b'\r' ∷ b'\n' ∷ []

-- The lines of the fields, in the order in which they came.
unfoldable pub serialize_fields : List (Bytes × Bytes) → Bytes
serialize_fields [] = []
serialize_fields ((name, value) ∷ rest) =
    name ++ codes ": " ++ value ++ http_eol_text ++ serialize_fields rest

module _ (ops : MessageOps) where
  -- `HttpHeader::Binding::operator()`: the text for a name of the format.
  unfoldable pub binding : HttpHeader → Bytes → Bytes
  binding h name =
      if ops.lines.starts_with_nocase name (codes "field.")
      then (elim (find_field ops.text ops.svtou h (drop 6 name)) [
        | some value ↦ value
        | none ↦ transaction_key_not_set
      ])
      else if is_eq (ops.text.strcasecmp (codes "url") name)
      then (if is_empty h.url then transaction_key_not_set else h.url)
      else transaction_key_not_set

  -- `HttpHeader::derive_key`
  unfoldable pub derive_key : HttpHeader → HttpHeader
  derive_key h =
      if is_eq (lex h.key transaction_key_not_set)
      then record h { key = ops.key_format (binding h) }
      else h

  -- What the loops do with a field.
  unfoldable pub response_field : HttpHeader → Bytes → Bytes → HttpHeader
  unfolding add_field
  response_field h name value = record h {
    fields_rules = add_field ops.text h.fields_rules name value;
  }

  unfoldable pub request_field : HttpHeader → Bytes → Bytes → HttpHeader
  unfolding response_field icompare
  request_field h name value =
      let expect = icompare name (codes "expect") && icompare value (codes "100-continue") in
      record (response_field h name value) {
        send_continue = if expect then true else h.send_continue;
      }

  -- A round of the loops: a line, trimmed at its end.
  unfoldable pub parse_line : (HttpHeader → Bytes → Bytes → HttpHeader) → Bytes → Parsing → Parsing
  parse_line on_field field p =
      let (name, value) = ops.lines.take_prefix_at b':' field in
      if is_empty field
      then p
      else if is_empty name
      then record p { result = parse_error; errata = p.errata ++ (error ∷ []) }
      else record p { header = on_field p.header name (ops.lines.trim_if is_space value) }

  -- The loops over the lines, with a bound on the rounds; `none` is a loop that has not ended.
  unfoldable pub parse_fields :
      (HttpHeader → Bytes → Bytes → HttpHeader) → ℕ → Bytes → Parsing → Option Parsing
  unfolding parse_line
  parse_fields on_field fuel [] p = some p
  parse_fields on_field zero (c ∷ cs) p = none
  parse_fields on_field (suc fuel) (c ∷ cs) p =
      let (line, rest) = ops.lines.take_prefix_at b'\n' (c ∷ cs) in
      parse_fields on_field fuel rest (parse_line on_field (ops.lines.rtrim_if is_space line) p)

  abbrev pub with_key : Option Parsing → Option Parsing
  with_key none = none
  with_key (some p) = some (record p { header = derive_key p.header })

  abbrev pub incomplete : HttpHeader → Option Parsing
  incomplete h = some (record { header = h; result = parse_incomplete; errata = [] })

  abbrev pub empty_line : HttpHeader → Option Parsing
  empty_line h = some (record { header = h; result = parse_error; errata = error ∷ [] })

  -- The first line of a request.
  unfoldable pub request_line : HttpHeader → Bytes → HttpHeader
  unfolding parse_url
  request_line h first_line =
      let (method, rest) =
        ops.lines.take_prefix_if is_space (ops.lines.remove_suffix_if is_space first_line) in
      let (url, version) = ops.lines.take_prefix_if is_space (ops.lines.ltrim_if is_space rest) in
      let (members, fields_rules) = parse_url h.members h.fields_rules url in
      record h {
        method = method;
        url = url;
        members = members;
        fields_rules = fields_rules;
        is_request = true;
      }

  -- The first line and the others, of a request that ends with a blank line.
  unfoldable pub request_lines : HttpHeader → Bytes × Bytes → Option Parsing
  unfolding request_line request_field parse_fields derive_key
  request_lines h (first_line, rest) =
      if is_empty first_line
      then empty_line h
      else with_key (
          parse_fields request_field (length rest) rest
            (record { header = request_line h first_line; result = parse_ok; errata = [] }))

  -- `HttpHeader::parse_request`; each round of the loop takes a byte at least.
  unfoldable pub parse_request : HttpHeader → Bytes → Option Parsing
  unfolding find_text request_lines
  parse_request h data_ = elim (find_text data_ http_eoh) [
    | none ↦ incomplete h
    | some i ↦
        request_lines h
          (ops.lines.take_prefix_at b'\n' (take (length data_ - length http_eoh) data_))
  ]

  -- The first line of a response. `_status` has 32 bits.
  unfoldable pub status_line : HttpHeader → Bytes → HttpHeader
  status_line h first_line =
      let (version, rest) = ops.lines.take_prefix_if is_space first_line in
      let (status, reason) = ops.lines.take_prefix_if is_space (ops.lines.ltrim_if is_space rest) in
      record h { status = ops.svtou status % 2 ^ 32; status_string = status; is_request = false }

  abbrev pub is_status : ℕ → Bool
  is_status status = if ltb status 1 || ltb 599 status then false else true

  unfoldable pub response_lines : HttpHeader → Bytes × Bytes → Option Parsing
  unfolding status_line response_field parse_fields derive_key
  response_lines h (line, rest) =
      let first_line = ops.lines.rtrim_if is_space line in
      let h' = status_line h first_line in
      if is_empty first_line
      then empty_line h
      else with_key (
          parse_fields response_field (length rest) rest (record {
            header = h';
            result = parse_ok;
            errata = if is_status h'.status then [] else error ∷ [];
          }))

  -- `HttpHeader::parse_response`
  unfoldable pub parse_response : HttpHeader → Bytes → Option Parsing
  unfolding find_text response_lines
  parse_response h data_ = elim (find_text data_ http_eoh) [
    | none ↦ incomplete h
    | some eoh ↦ response_lines h (ops.lines.take_prefix_at b'\n' (take eoh data_))
  ]

  -- `HttpHeader::serialize`; a header is a request or a response, so there is no message.
  unfoldable pub serialize : HttpHeader → Bytes
  unfolding serialize_fields
  serialize h =
      let first_line =
        if h.is_request
        then h.method ++ codes " " ++ h.url ++ codes " HTTP/" ++ h.http_version ++ http_eol_text
        else codes "HTTP/"
          ++ h.http_version
          ++ codes " "
          ++ ops.decimal h.status
          ++ codes " "
          ++ h.reason
          ++ http_eol_text in
      first_line ++ serialize_fields h.fields_rules.fields_sequence ++ http_eol_text
