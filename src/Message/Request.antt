-- ===== src/Message/Request.antt =====
-- The parts of a request that `serialize` writes.
use proxy_verifier.Base.{
  ℕ, suc, Bytes, Bool, true, false, List, [], ◌∷◌, ◌++◌, Option, some, ◌≡◌, ◌≢◌, refl, sym, ap, ◌∙◌,
  inl, inr, Bool-cases, append_assoc, codes, is_space, is_eq, lex, if◌then◌else◌,
}
use proxy_verifier.Fields.Defs.{add_fields}
use proxy_verifier.Message.Codec.{
  MessageOps, http_eol_text, serialize, request_field, response_field, derive_key,
}
use proxy_verifier.Message.Defs.{HttpHeader, transaction_key_not_set}
use proxy_verifier.Message.Lines.{Free}
use proxy_verifier.Message.Printed.{
  is_byte, AllSendable, joined, serialize_fields-joined, fold_fields,
}
use proxy_verifier.Message.Text.{drop_while}
use proxy_verifier.Rules.Search.{find_text, shifted}
use proxy_verifier.Session.Headers.{http_eoh}
use proxy_verifier.Url.Parse.{parse_url}

-- A request whose parts can be told apart, with a field at least.
pub record IsSendableRequest (h : HttpHeader) : Type 0 where
  pub request : h.is_request ≡ true
  pub one_word : Free is_space h.method
  pub has_url : h.url ≢ []
  pub one_word_url : Free is_space h.url
  pub one_line : Free (is_byte b'\n') h.http_version
  pub has_field : h.fields_rules.fields_sequence ≢ []
  pub fields : AllSendable h.fields_rules.fields_sequence

-- The members that fields and the key leave as they are, and the fields.
pub record FieldsRead (ops : MessageOps) (h : HttpHeader) (seq : List (Bytes × Bytes))
    (h' : HttpHeader) : Type 0 where
  pub same_kind : h'.is_request ≡ h.is_request
  pub same_method : h'.method ≡ h.method
  pub same_url : h'.url ≡ h.url
  pub same_members : h'.members ≡ h.members
  pub same_status : h'.status ≡ h.status
  pub all_added : h'.fields_rules ≡ add_fields ops.text h.fields_rules seq

module _ (ops : MessageOps) where
  pub fold_fields-FieldsRead :
      (h : HttpHeader) (seq : List (Bytes × Bytes))
      → FieldsRead ops h seq (fold_fields (request_field ops) h seq)
  unfolding request_field response_field add_fields
  fold_fields-FieldsRead h [] = record {
    same_kind = refl;
    same_method = refl;
    same_url = refl;
    same_members = refl;
    same_status = refl;
    all_added = refl;
  }
  fold_fields-FieldsRead h ((name, value) ∷ seq) =
      let t = fold_fields-FieldsRead (request_field ops h name value) seq in
      record {
        same_kind = t.same_kind;
        same_method = t.same_method;
        same_url = t.same_url;
        same_members = t.same_members;
        same_status = t.same_status;
        all_added = t.all_added;
      }

  pub derive_key-FieldsRead :
      (h h' : HttpHeader) (seq : List (Bytes × Bytes))
      → FieldsRead ops h seq h'
      → FieldsRead ops h seq (derive_key ops h')
  unfolding derive_key
  derive_key-FieldsRead h h' seq t =
      elim (Bool-cases (is_eq (lex h'.key transaction_key_not_set))) [
        | inl e ↦ rw e (record {
          same_kind = t.same_kind;
          same_method = t.same_method;
          same_url = t.same_url;
          same_members = t.same_members;
          same_status = t.same_status;
          all_added = t.all_added;
        })
        | inr e ↦ rw e t
      ]

-- The first line of a request, up to its end.
abbrev pub line_of : HttpHeader → Bytes
line_of h = h.method ++ codes " " ++ h.url ++ codes " HTTP/" ++ h.http_version

pub line_of_words :
    (h : HttpHeader)
    → line_of h ≡ h.method ++ (b' ' ∷ (h.url ++ (b' ' ∷ (codes "HTTP/" ++ h.http_version))))
line_of_words h =
    append_assoc (h.method ++ codes " " ++ h.url) (codes " HTTP/") h.http_version
    ∙ append_assoc (h.method ++ codes " ") h.url (codes " HTTP/" ++ h.http_version)
    ∙ append_assoc h.method (codes " ") (h.url ++ (codes " HTTP/" ++ h.http_version))

-- What comes before the blank line.
abbrev pub body_of : HttpHeader → Bytes × Bytes → List (Bytes × Bytes) → Bytes
body_of h f rest = line_of h ++ http_eol_text ++ joined f rest

pub serialize_text :
    (ops : MessageOps) (h : HttpHeader) (f : Bytes × Bytes) (rest : List (Bytes × Bytes))
    → h.is_request ≡ true
    → h.fields_rules.fields_sequence ≡ f ∷ rest
    → serialize ops h ≡ body_of h f rest ++ http_eoh
unfolding serialize
serialize_text ops h f rest request seq =
    rw (request, seq, serialize_fields-joined f rest)
      (append_assoc (line_of h ++ http_eol_text) (joined f rest ++ http_eol_text) http_eol_text
        ∙ ap (λ v. line_of h ++ http_eol_text ++ v)
            (append_assoc (joined f rest) http_eol_text http_eol_text)
        ∙ sym (append_assoc (line_of h ++ http_eol_text) (joined f rest) http_eoh))

pub body_of_line :
    (h : HttpHeader) (f : Bytes × Bytes) (rest : List (Bytes × Bytes))
    → body_of h f rest ≡ (line_of h ++ (b'\r' ∷ [])) ++ (b'\n' ∷ joined f rest)
body_of_line h f rest =
    append_assoc (line_of h) http_eol_text (joined f rest)
    ∙ sym (append_assoc (line_of h) (b'\r' ∷ []) (b'\n' ∷ joined f rest))

pub drop_while_word :
    (word more : Bytes)
    → word ≢ []
    → Free is_space word
    → drop_while is_space (word ++ more) ≡ word ++ more
drop_while_word [] more ne free = absurd (ne refl)
drop_while_word (c ∷ word) more ne free = rw free.0 refl

pub has_end : (front : Bytes) → (i : ℕ) × (find_text (front ++ http_eoh) http_eoh ≡ some i)
unfolding find_text
has_end [] = (0, refl)
has_end (c ∷ front) = at _ _ (has_end front)
  where
    at :
        (b : Bool) (o : Option ℕ)
        → ((i : ℕ) × (o ≡ some i))
        → (i : ℕ) × ((if b then some 0 else shifted o) ≡ some i)
    at true o e = (0, refl)
    at false o (i, e) = (suc i, ap shifted e)

-- What `parse_request` makes of a first line.
pub record LineRead (h0 h h' : HttpHeader) : Type 0 where
  pub kind : h'.is_request ≡ true
  pub read_method : h'.method ≡ h.method
  pub read_url : h'.url ≡ h.url
  pub url_members : h'.members ≡ (parse_url h0.members h0.fields_rules h.url).0
  pub url_parts : h'.fields_rules ≡ (parse_url h0.members h0.fields_rules h.url).1
