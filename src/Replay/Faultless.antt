-- ===== src/Replay/Faultless.antt =====
-- What holds of a message that `populate_http_message` fills without an error.
use proxy_verifier.Base.{
  ℕ, Bytes, Bool, true, ◌&&◌, [], ◌∷◌, ◌++◌, Option, none, some, ◌≡◌, sym, ap, subst, ◌∙◌, codes,
  arith, inl, inr, Bool-cases,
}
use proxy_verifier.Message.Codec.{MessageOps, derive_key}
use proxy_verifier.Message.Defs.{HttpHeader, find_field}
use proxy_verifier.Replay.Accepted.{accepts}
use proxy_verifier.Replay.Accepting.{parse_fields_and_rules-accepts}
use proxy_verifier.Replay.Content.{
  put_transfer, put_size, put_data, put_body, put_content, put_start, populate_http_message,
}
use proxy_verifier.Replay.FieldRules.{parse_fields_and_rules}
use proxy_verifier.Replay.Keeping.{start-Keeps, pseudo-Keeps, content-Keeps, key-Keeps}
use proxy_verifier.Replay.Populate.{
  Populated, fields_node, with_fields, put_fields, put_pseudo, put_authority,
}
use proxy_verifier.Replay.Pseudo.{process_pseudo_headers}
use proxy_verifier.Replay.PseudoKinds.{process_pseudo_headers_iff}
use proxy_verifier.Replay.PseudoSteps.{is_found, is_whole}
use proxy_verifier.Replay.Rules.{Reading}
use proxy_verifier.Replay.Tables.{table_of, Keeps-trans}
use proxy_verifier.Replay.Yaml.{YamlOps}
use proxy_verifier.Session.Errata.{Severity, diag, is_ok, is_ok-append, is_ok-append_front}
use proxy_verifier.Swoc.{TextLaws}

-- The pseudo headers of a message are those of a request, that of a response, or none.
abbrev pub has_whole_pseudos : MessageOps → HttpHeader → Bool
has_whole_pseudos ops h =
    let found = λ (name : Bytes). is_found (find_field ops.text ops.svtou h name) in
    is_whole (found (codes ":method")) (found (codes ":scheme")) (found (codes ":authority"))
      (found (codes ":path")) (found (codes ":status"))

-- An error before stays.
abbrev Clean : Populated → Populated → Type 0
Clean p q = is_ok q.errata ≡ true → is_ok p.errata ≡ true

module _ (ops : MessageOps) (laws : TextLaws ops.text) (parsed : Bytes → Bytes)
    (svto_radix : Bytes → ℕ) {Node : Type 0} (yaml : YamlOps Node) where
  size-Clean : (size : ℕ) (p : Populated) → Clean p (put_size ops parsed svto_radix yaml size p)
  unfolding put_size
  size-Clean size p ok = ground (arith, ok, is_ok-append_front p.errata (diag ∷ []))

  data-Clean :
      (encoding : Option Node) (text : Bytes) (p : Populated)
      → Clean p (put_data ops parsed svto_radix yaml encoding text p)
  unfolding put_data put_size
  data-Clean none text p ok = ground (arith, ok, is_ok-append_front p.errata (diag ∷ []))
  data-Clean (some encoding) text p ok = ground (
    arith,
    ok,
    is_ok-append_front p.errata (diag ∷ []),
    is_ok-append_front p.errata (Severity.error ∷ []),
    is_ok-append_front (p.errata ++ (Severity.error ∷ [])) (diag ∷ []),
  )

  body-Clean :
      (content size encoding : Option Node) (p : Populated)
      → Clean p (put_body ops parsed svto_radix yaml content size encoding p)
  unfolding put_body
  body-Clean (some content) size encoding p = data-Clean encoding (yaml.text content) p
  body-Clean none (some size) encoding p = size-Clean (ops.svtou (yaml.text size)) p
  body-Clean none none encoding p = is_ok-append_front p.errata (Severity.error ∷ [])

  content-Clean :
      (content : Option Node) (p : Populated)
      → Clean p (put_content ops parsed svto_radix yaml content p)
  unfolding put_content put_transfer
  content-Clean none p ok = ok
  content-Clean (some content) p ok =
      let transferred = put_transfer ops parsed svto_radix yaml content p in
      ground (
        arith,
        ok,
        is_ok-append_front p.errata (Severity.error ∷ []),
        body-Clean (yaml.member content (codes "data")) (yaml.member content (codes "size"))
            (yaml.member content (codes "encoding")) transferred,
      )

  authority-Clean : (p : Populated) → Clean p (put_authority ops parsed yaml p)
  unfolding put_authority
  authority-Clean p ok = ground (arith, ok)

  with_fields-is_ok :
      (reading : Reading) (p : Populated)
      → is_ok (with_fields ops parsed yaml reading p).errata ≡ true
      → is_ok reading.errata ≡ true
  with_fields-is_ok reading p ok = elim (Bool-cases (is_ok reading.errata)) [
    | inl fine ↦ fine
    | inr bad ↦ ground (arith, ok, bad, is_ok-append p.errata (Severity.error ∷ reading.errata))
  ]

  put_fields-accepts :
      (o : Option Node) (n : Node) (p : Populated)
      → o ≡ some n
      → is_ok (put_fields ops parsed yaml o p).errata ≡ true
      → accepts yaml (yaml.elements n) p.message.verify_strictly ≡ true
  unfolding put_fields
  put_fields-accepts o n p e ok =
      let reading =
        parse_fields_and_rules ops.text yaml n p.message.fields_rules p.message.verify_strictly in
      sym (
        parse_fields_and_rules-accepts ops.text laws yaml n p.message.fields_rules
          p.message.verify_strictly)
      ∙ with_fields-is_ok reading p
          (subst (λ x. is_ok (put_fields ops parsed yaml x p).errata ≡ true) e ok)

  and_right : (a b : Bool) → (a && b) ≡ true → b ≡ true
  and_right a b both = ground (arith, both)

  put_pseudo-whole :
      (p : Populated)
      → is_ok (put_pseudo ops parsed yaml p).errata ≡ true
      → has_whole_pseudos ops p.message ≡ true
  unfolding put_pseudo
  put_pseudo-whole p ok =
      let e = (process_pseudo_headers ops parsed p.message).errata in
      and_right _ (has_whole_pseudos ops p.message)
        (sym ((process_pseudo_headers_iff ops parsed p.message).0) ∙ is_ok-append p.errata e ok)

  put_pseudo-Clean : (p : Populated) → Clean p (put_pseudo ops parsed yaml p)
  unfolding put_pseudo
  put_pseudo-Clean p =
      is_ok-append_front p.errata (process_pseudo_headers ops parsed p.message).errata

  same_pseudos :
      (h h' : HttpHeader)
      → table_of h'.fields_rules ≡ table_of h.fields_rules
      → has_whole_pseudos ops h ≡ true
      → has_whole_pseudos ops h' ≡ true
  same_pseudos h h' e whole = rw (ap (λ t. t.0) e) whole

  -- A message that `populate_http_message` fills without an error has only well-formed entries in the
  -- fields of its node, with directives that are known, under the strictness of the message; and its
  -- fields have the four pseudo headers of a request and not `:status`, or `:status` alone, or none.
  pub populate_http_message-accepted :
      (node : Node) (h : HttpHeader)
      → is_ok (populate_http_message ops parsed svto_radix yaml node h).errata ≡ true
      → ((n : Node)
          → fields_node ops parsed yaml node ≡ some n
          → accepts yaml (yaml.elements n) h.verify_strictly ≡ true)
        × (has_whole_pseudos ops (populate_http_message ops parsed svto_radix yaml node h).message
            ≡ true)
  unfolding populate_http_message
  populate_http_message-accepted node h ok =
      let started =
        put_start ops parsed svto_radix yaml node (record { message = h; errata = [] }) in
      let o = fields_node ops parsed yaml node in
      let fielded = put_fields ops parsed yaml o started in
      let pseudo = put_pseudo ops parsed yaml fielded in
      let content = yaml.member node (codes "content") in
      let p =
        put_content ops parsed svto_radix yaml content (put_authority ops parsed yaml pseudo) in
      let strict =
        (start-Keeps ops parsed svto_radix yaml node
          (record { message = h; errata = [] })).same_strictness in
      let kept = Keeps-trans (pseudo-Keeps ops parsed svto_radix yaml fielded) (
        Keeps-trans (content-Keeps ops parsed svto_radix yaml content pseudo)
          (key-Keeps ops parsed svto_radix yaml p.message)) in
      let pseudo_ok =
        authority-Clean pseudo (content-Clean content (put_authority ops parsed yaml pseudo) ok) in
      let fielded_ok = put_pseudo-Clean fielded pseudo_ok in
      (
        λ n e.
            subst (λ b. accepts yaml (yaml.elements n) b ≡ true) strict
              (put_fields-accepts o n started e fielded_ok),
        same_pseudos fielded.message (derive_key ops p.message) kept.same_table
            (put_pseudo-whole fielded pseudo_ok),
      )
