-- ===== src/Fields/Defs.antt =====
-- `HttpFields`: the members, `add_field` and `merge`.
use proxy_verifier.Base.{Bytes, List, [], ◌∷◌, ◌++◌, Option}
use proxy_verifier.Multimap.Ops.{Multimap, emplace}
use proxy_verifier.Rules.Defs.{UrlPart, RuleCheck}
use proxy_verifier.Swoc.{TextOps}

-- A rule pointer in `url_rules` may be null.
pub record HttpFields : Type 0 where
  pub rules : Multimap RuleCheck
  pub fields : Multimap Bytes
  pub fields_sequence : List (Bytes × Bytes)
  pub url_rules : UrlPart → List (Option RuleCheck)
  pub url_parts : UrlPart → Bytes

abbrev pub no_fields : HttpFields
no_fields = record {
  rules = [];
  fields = [];
  fields_sequence = [];
  url_rules = λ p. [];
  url_parts = λ p. [];
}

module _ (ops : TextOps) where
  unfoldable pub add_field : HttpFields → Bytes → Bytes → HttpFields
  add_field h name value = record h {
    fields = emplace ops name value h.fields;
    fields_sequence = h.fields_sequence ++ ((name, value) ∷ []);
  }

  -- A loop of `emplace` over the entries of another map.
  unfoldable pub emplace_all : {V : Type 0} → Multimap V → Multimap V → Multimap V
  emplace_all [] m = m
  emplace_all ((name, value) ∷ rest) m = emplace_all rest (emplace ops name value m)

  unfoldable pub merge : HttpFields → HttpFields → HttpFields
  unfolding emplace_all
  merge h other = record h {
    fields = emplace_all other.fields h.fields;
    fields_sequence = h.fields_sequence ++ other.fields_sequence;
    rules = emplace_all other.rules h.rules;
  }

  -- The fields of a message, added in the order of reception.
  unfoldable pub add_fields : HttpFields → List (Bytes × Bytes) → HttpFields
  unfolding add_field
  add_fields h [] = h
  add_fields h ((name, value) ∷ rest) = add_fields (add_field h name value) rest
