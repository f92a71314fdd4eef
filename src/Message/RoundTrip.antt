-- ===== src/Message/RoundTrip.antt =====
-- A request that `serialize` wrote is read by `parse_request`.
use proxy_verifier.Base.{
  ℕ, ◌-◌, Bytes, true, false, List, [], ◌∷◌, ◌++◌, Option, none, some, ◌==◌, ◌≡◌, refl, sym, ap,
  subst, ◌∙◌, All-append, codes, is_space, is_empty, length, take, length-append, take-append,
  arith,
}
use proxy_verifier.Fields.Defs.{add_fields}
use proxy_verifier.Message.Codec.{
  MessageOps, parse_ok, Parsing, parse_fields, serialize, request_field, request_line, derive_key,
  with_key, request_lines, parse_request, incomplete,
}
use proxy_verifier.Message.Defs.{HttpHeader}
use proxy_verifier.Message.Lines.{Free, split_if-append}
use proxy_verifier.Message.Printed.{is_byte, AllSendable, joined, fold_fields, parse_fields-joined}
use proxy_verifier.Message.Text.{LineLaws}
use proxy_verifier.Rules.Search.{find_text}
use proxy_verifier.Session.Headers.{http_eoh}
use proxy_verifier.Url.Parse.{parse_url}
use proxy_verifier.Message.Request.{
  IsSendableRequest, LineRead, line_of_words, serialize_text, body_of_line, drop_while_word,
  has_end, line_of, body_of, fold_fields-FieldsRead, derive_key-FieldsRead,
}

module _ (ops : MessageOps) (laws : LineLaws ops.lines) where
  request_line-LineRead :
      (h0 h : HttpHeader)
      → IsSendableRequest h
      → LineRead h0 h (request_line ops h0 (line_of h ++ (b'\r' ∷ [])))
  unfolding request_line is_space
  request_line-LineRead h0 h s =
      let version = codes "HTTP/" ++ h.http_version in
      rw
        (
          laws.suffix_removed is_space (line_of h) b'\r' refl,
          line_of_words h,
          laws.if_splits is_space (h.method ++ (b' ' ∷ (h.url ++ (b' ' ∷ version)))),
          split_if-append is_space h.method b' ' (h.url ++ (b' ' ∷ version)) s.one_word refl,
          laws.ltrim_drops is_space (h.url ++ (b' ' ∷ version)),
          drop_while_word h.url (b' ' ∷ version) s.has_url s.one_word_url,
          laws.if_splits is_space (h.url ++ (b' ' ∷ version)),
          split_if-append is_space h.url b' ' version s.one_word_url refl,
        )
        (record {
          kind = refl;
          read_method = refl;
          read_url = refl;
          url_members = refl;
          url_parts = refl;
        })

  one_line_request :
      (h : HttpHeader) → IsSendableRequest h → Free (is_byte b'\n') (line_of h ++ (b'\r' ∷ []))
  unfolding is_space
  one_line_request h s =
      let joins = All-append (λ c. (c == b'\n') ≡ false) in
      joins (line_of h) (b'\r' ∷ [])
        (joins (h.method ++ codes " " ++ h.url ++ codes " HTTP/") h.http_version
          (joins (h.method ++ codes " " ++ h.url) (codes " HTTP/")
            (joins (h.method ++ codes " ") h.url
              (joins h.method (codes " ") (no_space h.method s.one_word) (refl, tt))
              (no_space h.url s.one_word_url))
            (refl, (refl, (refl, (refl, (refl, (refl, tt)))))))
          s.one_line)
        (refl, tt)
    where
      no_space : (word : Bytes) → Free is_space word → Free (is_byte b'\n') word
      no_space [] free = tt
      no_space (c ∷ word) free = (ground (arith, free.0), no_space word free.1)

  parse_request_lines :
      (h : HttpHeader) (data_ first_line rest : Bytes) (i : ℕ)
      → find_text data_ http_eoh ≡ some i
      → ops.lines.take_prefix_at b'\n' (take (length data_ - 4) data_) ≡ (first_line, rest)
      → is_empty first_line ≡ false
      → parse_request ops h data_
        ≡ with_key ops (
            parse_fields ops
              (request_field ops)
              (length rest)
              rest
              (record { header = request_line ops h first_line; result = parse_ok; errata = [] }))
  unfolding parse_request request_lines
  parse_request_lines h data_ first_line rest i found cut full =
      ap
        (λ o. elim o as (λ o'. Option Parsing) [
          | none ↦ incomplete ops h
          | some i ↦
              request_lines ops h (ops.lines.take_prefix_at b'\n' (take (length data_ - 4) data_))
        ])
        found
      ∙ ap (request_lines ops h) cut
      ∙ rw full refl

  -- What has come of a request that was sent.
  pub record RequestRead (h0 h : HttpHeader) (r : Parsing) : Type 0 where
    pub is_ok : r.result ≡ parse_ok
    pub no_message : r.errata ≡ []
    pub kind : r.header.is_request ≡ true
    pub read_method : r.header.method ≡ h.method
    pub read_url : r.header.url ≡ h.url
    pub url_members : r.header.members ≡ (parse_url h0.members h0.fields_rules h.url).0
    pub fields_added :
        r.header.fields_rules
        ≡ add_fields ops.text
            (parse_url h0.members h0.fields_rules h.url).1
            h.fields_rules.fields_sequence

  read_back :
      (h0 h : HttpHeader) (seq : List (Bytes × Bytes))
      → IsSendableRequest h
      → h.fields_rules.fields_sequence ≡ seq
      → (r : Parsing) × (parse_request ops h0 (serialize ops h) ≡ some r) × RequestRead h0 h r
  read_back h0 h [] s e = absurd (s.has_field e)
  read_back h0 h (f ∷ rest) s e =
      let line = line_of h ++ (b'\r' ∷ []) in
      let body = body_of h f rest in
      let text = serialize_text ops h f rest s.request e in
      let end = has_end body in
      let front : take (length (body ++ http_eoh) - 4) (body ++ http_eoh) ≡ body =
        take-append _ body http_eoh (omega (arith, length-append body http_eoh)) in
      let cut : ops.lines.take_prefix_at b'\n'
            (take (length (body ++ http_eoh) - 4) (body ++ http_eoh))
          ≡ (line, joined f rest) =
        ap (ops.lines.take_prefix_at b'\n') (front ∙ body_of_line h f rest)
        ∙ laws.at_splits b'\n' (line ++ (b'\n' ∷ joined f rest))
        ∙ split_if-append (is_byte b'\n') line b'\n' (joined f rest) (one_line_request h s) refl in
      let start : Parsing = record {
        header = request_line ops h0 line;
        result = parse_ok;
        errata = [];
      } in
      let filled = fold_fields (request_field ops) (request_line ops h0 line) (f ∷ rest) in
      let first = request_line-LineRead h0 h s in
      let kept =
        derive_key-FieldsRead ops (request_line ops h0 line) filled (f ∷ rest)
          (fold_fields-FieldsRead ops (request_line ops h0 line) (f ∷ rest)) in
      (
        record start { header = derive_key ops filled },
        ap (parse_request ops h0) text
            ∙ parse_request_lines h0 (body ++ http_eoh) line (joined f rest) end.0 end.1 cut
                (full (line_of h))
            ∙ ap (with_key ops) (
                parse_fields-joined ops laws (request_field ops) (length (joined f rest)) f rest
                  start (subst AllSendable e s.fields) (omega arith)),
        record {
          is_ok = refl;
          no_message = refl;
          kind = kept.same_kind ∙ first.kind;
          read_method = kept.same_method ∙ first.read_method;
          read_url = kept.same_url ∙ first.read_url;
          url_members = kept.same_members ∙ first.url_members;
          fields_added =
              kept.all_added
              ∙ ap (λ g. add_fields ops.text g (f ∷ rest)) first.url_parts
              ∙ ap (add_fields ops.text (parse_url h0.members h0.fields_rules h.url).1) (sym e);
        },
      )
    where
      full : (front : Bytes) → is_empty (front ++ (b'\r' ∷ [])) ≡ false
      full [] = refl
      full (c ∷ front) = refl

  -- The text that `serialize` writes for a request with a field at least, whose method and URL have
  -- no space and whose names and values are one line each, names without a colon and values without
  -- space around them, is parsed without an error. `parse_request` ends, finds the method and the
  -- URL, splits it as `parse_url` does, and adds the fields in their order.
  pub parse_request-serialize :
      (h0 h : HttpHeader)
      → IsSendableRequest h
      → (r : Parsing) × (parse_request ops h0 (serialize ops h) ≡ some r) × RequestRead h0 h r
  parse_request-serialize h0 h s = read_back h0 h h.fields_rules.fields_sequence s refl
