-- ===== src/Replay/Tables.antt =====
-- The fields and the status of a message that `populate_http_message` fills.
use proxy_verifier.Base.{
  ℕ, Bytes, Bool, List, [], ◌∷◌, Option, none, some, ◌≡◌, refl, sym, ap, subst, ◌≤◌, ◌∙◌, arith,
}
use proxy_verifier.Fields.Defs.{HttpFields}
use proxy_verifier.Message.Codec.{MessageOps}
use proxy_verifier.Message.Defs.{HttpHeader}
use proxy_verifier.Multimap.Ops.{Multimap}
use proxy_verifier.Replay.FieldRules.{entry, parse_entry, parse_entries}
use proxy_verifier.Replay.Pseudo.{
  Pseudo, pseudo_method, pseudo_scheme, pseudo_authority, pseudo_path, pseudo_status, check_pseudos,
  pseudo_fields,
}
use proxy_verifier.Replay.Rules.{
  Reading, url_scalar, url_directive, url_value, url_entry, push_url_rule,
}
use proxy_verifier.Replay.Yaml.{YamlOps}
use proxy_verifier.Rules.Defs.{UrlPart}
use proxy_verifier.Swoc.{TextOps}

-- The fields as a map and as a sequence.
abbrev pub Table : Type 0
Table = Multimap Bytes × List (Bytes × Bytes)

abbrev pub table_of : HttpFields → Table
table_of h = (h.fields, h.fields_sequence)

-- With the status and the strictness.
abbrev pub view : HttpHeader → Table × (ℕ × Bool)
view h = (table_of h.fields_rules, (h.status, h.verify_strictly))

-- A step keeps the fields, the strictness, and a status of at most 599.
pub record Keeps (h h' : HttpHeader) : Type 0 where
  pub same_table : table_of h'.fields_rules ≡ table_of h.fields_rules
  pub in_range : h.status ≤ 599 → h'.status ≤ 599
  pub same_strictness : h'.verify_strictly ≡ h.verify_strictly

pub Keeps-trans : {a b c : HttpHeader} → Keeps a b → Keeps b c → Keeps a c
Keeps-trans k l = record {
  same_table = l.same_table ∙ k.same_table;
  in_range = λ h. l.in_range (k.in_range h);
  same_strictness = l.same_strictness ∙ k.same_strictness;
}

pub kept_by : (h h' : HttpHeader) → view h' ≡ view h → Keeps h h'
kept_by h h' e = record {
  same_table = ap (λ t. t.0) e;
  in_range = λ fits. subst (λ n. n ≤ 599) (sym (ap (λ t. t.1.0) e)) fits;
  same_strictness = ap (λ t. t.1.1) e;
}

-- The rules of a URL are not fields.
module _ (ops : TextOps) {Node : Type 0} (yaml : YamlOps Node) where
  table-url_value :
      (url_part : UrlPart) (value : Node) (t : Option Node) (assume : Bool) (r : Reading)
      → table_of (url_value ops yaml url_part value t assume r).fields ≡ table_of r.fields
  unfolding url_value url_scalar url_directive push_url_rule
  table-url_value url_part value none assume r = ground arith
  table-url_value url_part value (some t) assume r = ground arith

  table-url_entry :
      (key value : Node) (t : Option Node) (assume : Bool) (r : Reading)
      → table_of (url_entry ops yaml key value t assume r).fields ≡ table_of r.fields
  unfolding url_entry
  table-url_entry key value t assume r =
      let of = λ (url_part : UrlPart). table-url_value url_part value t assume r in
      ground (
        arith,
        of UrlPart.scheme,
        of UrlPart.host,
        of UrlPart.port,
        of UrlPart.authority,
        of UrlPart.path,
        of UrlPart.query,
        of UrlPart.fragment,
      )

  table-handled :
      (es : List Node) (assume : Bool) (r : Reading)
      → table_of (entry ops yaml (url_entry ops yaml) es assume r).fields ≡ table_of r.fields
  table-handled [] assume r = refl
  table-handled (key ∷ []) assume r = refl
  table-handled (key ∷ value ∷ []) assume r = table-url_entry key value none assume r
  table-handled (key ∷ value ∷ t ∷ []) assume r = table-url_entry key value (some t) assume r
  table-handled (key ∷ value ∷ t ∷ u ∷ more) assume r = refl

  pub table-entries :
      (nodes : List Node) (assume : Bool) (r : Reading)
      → table_of (parse_entries ops yaml (url_entry ops yaml) nodes assume r).fields
        ≡ table_of r.fields
  unfolding parse_entry
  table-entries [] assume r = refl
  table-entries (node ∷ nodes) assume r =
      let here : table_of (parse_entry ops yaml (url_entry ops yaml) node assume r).fields
          ≡ table_of r.fields =
        ground (arith, table-handled (yaml.elements node) assume r) in
      table-entries nodes assume (parse_entry ops yaml (url_entry ops yaml) node assume r) ∙ here

-- Nor does any pseudo header change the fields.
abbrev kept : Pseudo → Table × (ℕ × Bool)
kept p = view p.message

kept-method : (o : Option Bytes) (p : Pseudo) → kept (pseudo_method o p) ≡ kept p
unfolding pseudo_method
kept-method none p = refl
kept-method (some v) p = refl

kept-scheme : (o : Option Bytes) (p : Pseudo) → kept (pseudo_scheme o p) ≡ kept p
unfolding pseudo_scheme
kept-scheme none p = refl
kept-scheme (some v) p = refl

kept-authority : (host o : Option Bytes) (p : Pseudo) → kept (pseudo_authority host o p) ≡ kept p
unfolding pseudo_authority
kept-authority host none p = refl
kept-authority none (some v) p = ground arith
kept-authority (some host) (some v) p = refl

kept-path : (o : Option Bytes) (p : Pseudo) → kept (pseudo_path o p) ≡ kept p
unfolding pseudo_path
kept-path none p = refl
kept-path (some v) p = refl

kept-check : (p : Pseudo) → kept (check_pseudos p) ≡ kept p
unfolding check_pseudos
kept-check p = ground arith

module _ (ops : MessageOps) (parsed : Bytes → Bytes) where
  pseudo_status-Keeps :
      (o : Option Bytes) (p : Pseudo) → Keeps p.message (pseudo_status ops parsed o p).message
  unfolding pseudo_status
  pseudo_status-Keeps none p = record {
    same_table = refl;
    in_range = λ h. h;
    same_strictness = refl;
  }
  pseudo_status-Keeps (some text) p = record {
    same_table = ground arith;
    in_range = λ h. ground arith;
    same_strictness = ground arith;
  }

  pub pseudos-Keeps :
      (m s host a p st : Option Bytes) (h : HttpHeader)
      → Keeps h (pseudo_fields ops parsed m s host a p st h).message
  unfolding pseudo_fields
  pseudos-Keeps m s host a p st h =
      let p0 : Pseudo = record { message = h; errata = []; number = 0 } in
      let p1 = pseudo_method m p0 in
      let p2 = pseudo_scheme s p1 in
      let p3 = pseudo_authority host a p2 in
      let p4 = pseudo_path p p3 in
      Keeps-trans
        (kept_by h p4.message
          (kept-path p p3 ∙ (kept-authority host a p2 ∙ (kept-scheme s p1 ∙ kept-method m p0))))
        (Keeps-trans (pseudo_status-Keeps st p4) (
          kept_by (pseudo_status ops parsed st p4).message
            (check_pseudos (pseudo_status ops parsed st p4)).message
            (kept-check (pseudo_status ops parsed st p4))))
