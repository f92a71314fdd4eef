-- ===== src/Message/Printed.antt =====
-- The lines of the fields as `serialize` writes them, read by `parse_fields`.
use proxy_verifier.Base.{
  ℕ, zero, suc, ◌≤◌, Bytes, Bool, true, List, [], ◌∷◌, ◌++◌, some, ◌==◌, ◌≡◌, ◌≢◌, refl, sym, ap,
  ◌∙◌, append_assoc, All-append, codes, All, is_space, length, length-append, arith,
}
use proxy_verifier.Message.Codec.{
  MessageOps, Parsing, parse_line, parse_fields, http_eol_text, serialize_fields,
}
use proxy_verifier.Message.Defs.{HttpHeader}
use proxy_verifier.Message.Lines.{
  Free, split_if-append, split_if-Free, trim_end_behind, IsTrimmed, trim_around,
}
use proxy_verifier.Message.Text.{LineLaws, split_if, trim_end}

abbrev pub is_byte : ℕ → ℕ → Bool
is_byte c d = d == c

-- A field that can be sent: a name without colon, a trimmed value, no line feed.
pub record IsSendable (name value : Bytes) : Type 0 where
  pub named : name ≢ []
  pub no_colon : Free (is_byte b':') name
  pub one_line : Free (is_byte b'\n') name
  pub one_line_value : Free (is_byte b'\n') value
  pub trimmed : IsTrimmed value

abbrev pub AllSendable : List (Bytes × Bytes) → Type 0
AllSendable = All (λ f. IsSendable f.0 f.1)

abbrev field_text : Bytes → Bytes → Bytes → Bytes
field_text name value end = name ++ (b':' ∷ b' ' ∷ (value ++ end))

-- The lines without the last end of line.
abbrev pub joined : Bytes × Bytes → List (Bytes × Bytes) → Bytes
joined (name, value) [] = field_text name value []
joined (name, value) (f ∷ rest) = field_text name value (b'\r' ∷ b'\n' ∷ joined f rest)

field_text-append :
    (name value end more : Bytes)
    → field_text name value end ++ more ≡ field_text name value (end ++ more)
field_text-append name value end more =
    append_assoc name _ more ∙ ap (λ v. name ++ (b':' ∷ b' ' ∷ v)) (append_assoc value end more)

-- The parts of a line, written one behind the other.
line_text :
    (name value end more : Bytes)
    → name ++ codes ": " ++ value ++ end ++ more ≡ field_text name value (end ++ more)
line_text name value end more =
    append_assoc (name ++ codes ": " ++ value) end more
    ∙ append_assoc (name ++ codes ": ") value (end ++ more)
    ∙ append_assoc name (codes ": ") (value ++ (end ++ more))

pub serialize_fields-joined :
    (f : Bytes × Bytes) (rest : List (Bytes × Bytes))
    → serialize_fields (f ∷ rest) ≡ joined f rest ++ http_eol_text
unfolding serialize_fields
serialize_fields-joined (name, value) [] =
    line_text name value http_eol_text [] ∙ sym (field_text-append name value [] http_eol_text)
serialize_fields-joined (name, value) (f ∷ rest) =
    line_text name value http_eol_text (serialize_fields (f ∷ rest))
    ∙ ap (λ v. field_text name value (b'\r' ∷ b'\n' ∷ v)) (serialize_fields-joined f rest)
    ∙ sym (field_text-append name value (b'\r' ∷ b'\n' ∷ joined f rest) http_eol_text)

length-joined : (f : Bytes × Bytes) (rest : List (Bytes × Bytes)) → 2 ≤ length (joined f rest)
length-joined (name, value) [] = omega (arith, length-append name (b':' ∷ b' ' ∷ (value ++ [])))
length-joined (name, value) (f ∷ rest) =
    omega (arith, length-append name (b':' ∷ b' ' ∷ (value ++ (b'\r' ∷ b'\n' ∷ joined f rest))))

-- What the loop does with the fields.
abbrev pub fold_fields :
    (HttpHeader → Bytes → Bytes → HttpHeader) → HttpHeader → List (Bytes × Bytes) → HttpHeader
fold_fields on_field h [] = h
fold_fields on_field h ((name, value) ∷ rest) = fold_fields on_field (on_field h name value) rest

one_line_field :
    (name value end : Bytes)
    → IsSendable name value
    → Free (is_byte b'\n') end
    → Free (is_byte b'\n') (field_text name value end)
one_line_field name value end s free =
    All-append _ name (b':' ∷ b' ' ∷ (value ++ end)) s.one_line
      (refl, (refl, All-append _ value end s.one_line_value free))

module _ (ops : MessageOps) (laws : LineLaws ops.lines)
    (on_field : HttpHeader → Bytes → Bytes → HttpHeader) where
  parse_line_field :
      (name value end : Bytes) (p : Parsing)
      → IsSendable name value
      → All (λ c. is_space c ≡ true) end
      → parse_line ops on_field (ops.lines.rtrim_if is_space (field_text name value end)) p
        ≡ record p { header = on_field p.header name value }
  unfolding parse_line is_space
  parse_line_field [] value end p s spaces = absurd (s.named refl)
  parse_line_field (c ∷ name) value end p s spaces =
      rw
        (
          laws.rtrim_cuts is_space (field_text (c ∷ name) value end),
          trim_end_behind is_space (c ∷ name) b':' (b' ' ∷ (value ++ end)) refl,
          laws.at_splits b':' ((c ∷ name) ++ (b':' ∷ trim_end is_space (b' ' ∷ (value ++ end)))),
          split_if-append (is_byte b':') (c ∷ name) b':' (trim_end is_space (b' ' ∷ (value ++ end)))
              s.no_colon refl,
          laws.trim_both is_space (trim_end is_space (b' ' ∷ (value ++ end))),
          trim_around value end s.trimmed spaces,
        )
        refl

  -- A text that is not empty, as a line and what is left.
  parse_fields_line :
      (fuel : ℕ) (line rest text : Bytes) (p : Parsing)
      → text ≢ []
      → ops.lines.take_prefix_at b'\n' text ≡ (line, rest)
      → parse_fields ops on_field (suc fuel) text p
        ≡ parse_fields ops on_field fuel rest
            (parse_line ops on_field (ops.lines.rtrim_if is_space line) p)
  unfolding parse_fields
  parse_fields_line fuel line rest [] p ne e = absurd (ne refl)
  parse_fields_line fuel line rest (c ∷ cs) p ne e = rw e refl

  field_text_ne : (name value end : Bytes) → name ≢ [] → field_text name value end ≢ []
  field_text_ne [] value end ne e = ne refl
  field_text_ne (c ∷ name) value end ne e = cc

  pub parse_fields-joined :
      (fuel : ℕ) (f : Bytes × Bytes) (rest : List (Bytes × Bytes)) (p : Parsing)
      → AllSendable (f ∷ rest)
      → length (joined f rest) ≤ fuel
      → parse_fields ops on_field fuel (joined f rest) p
        ≡ some (record p { header = fold_fields on_field p.header (f ∷ rest) })
  parse_fields-joined zero (name, value) rest p s enough =
      absurd (omega (arith, length-joined (name, value) rest, enough))
  parse_fields-joined (suc fuel) (name, value) [] p s enough =
      parse_fields_line fuel (field_text name value []) [] (field_text name value []) p
        (field_text_ne name value [] s.0.named)
        (laws.at_splits b'\n' (field_text name value [])
          ∙ split_if-Free (is_byte b'\n') (field_text name value [])
              (one_line_field name value [] s.0 tt))
      ∙ unfold parse_fields in ap some (parse_line_field name value [] p s.0 tt)
  parse_fields-joined (suc fuel) (name, value) (f ∷ rest) p s enough =
      let line = field_text name value (b'\r' ∷ []) in
      let text = field_text name value (b'\r' ∷ b'\n' ∷ joined f rest) in
      let cut : text ≡ line ++ (b'\n' ∷ joined f rest) =
        sym (field_text-append name value (b'\r' ∷ []) (b'\n' ∷ joined f rest)) in
      parse_fields_line fuel line (joined f rest) text p (field_text_ne name value _ s.0.named) (
        laws.at_splits b'\n' text
        ∙ ap (split_if (is_byte b'\n')) cut
        ∙ split_if-append (is_byte b'\n') line b'\n' (joined f rest)
            (one_line_field name value (b'\r' ∷ []) s.0 (refl, tt)) refl)
      ∙ ap (parse_fields ops on_field fuel (joined f rest))
          (parse_line_field name value (b'\r' ∷ []) p s.0 (unfold is_space in (refl, tt)))
      ∙ parse_fields-joined fuel f rest (record p { header = on_field p.header name value }) s.1
          (omega (
            arith,
            enough,
            length-append name (b':' ∷ b' ' ∷ (value ++ (b'\r' ∷ b'\n' ∷ joined f rest))),
            length-append value (b'\r' ∷ b'\n' ∷ joined f rest),
          ))
