-- ===== src/Tests/Fields.antt =====
-- Messages and rules.
use proxy_verifier.Base.{
  Bytes, List, true, false, [], ◌∷◌, ◌≡◌, ◌↔◌, refl, arith, codes, lex, tolower, All,
}
use proxy_verifier.Fields.Defs.{HttpFields, no_fields, add_fields}
use proxy_verifier.Fields.Received.{
  IsConsistent, received, no_fields-IsConsistent, add_fields-IsConsistent,
}
use proxy_verifier.Fields.Verdict.{FieldHolds, PartHolds, verify_headers_iff}
use proxy_verifier.Fields.Verify.{verify_headers, url_parts_in_order}
use proxy_verifier.Multimap.Ops.{emplace, equal_range, equivalent, less}
use proxy_verifier.Rules.Defs.{
  RuleBase, RuleCheck, equality, invert_if_applicable, expects_duplicate_fields,
}
use proxy_verifier.Rules.Evaluate.{test_values, differs, all_equal}
use proxy_verifier.Tests.Text.{text_ops, text_laws}

abbrev cookie : RuleBase
cookie = record {
  name = codes "set-cookie";
  is_field = true;
  is_inverted = false;
  is_nocase = false;
}

abbrev two_cookies : RuleCheck
two_cookies =
    equality cookie (record { value = []; values = codes "a" ∷ codes "b" ∷ []; duplicates = true })

abbrev fields : List (Bytes × Bytes)
fields =
    (codes "Set-Cookie", codes "a")
    ∷ (codes "Host", codes "h")
    ∷ (codes "set-cookie", codes "b")
    ∷ []

abbrev message : HttpFields
message = add_fields text_ops no_fields fields

abbrev rules : HttpFields
rules = record no_fields { rules = (codes "set-cookie", two_cookies) ∷ [] }

accepted : verify_headers text_ops message rules ≡ false
unfolding verify_headers add_fields equal_range emplace equivalent expects_duplicate_fields
    test_values differs all_equal invert_if_applicable less lex tolower
accepted = refl

message-IsConsistent : IsConsistent text_ops message
message-IsConsistent =
    add_fields-IsConsistent text_laws no_fields fields (no_fields-IsConsistent text_ops)

add_fields-IsConsistent_example : IsConsistent text_ops (add_fields text_ops no_fields fields)
add_fields-IsConsistent_example =
    add_fields-IsConsistent text_laws no_fields fields (no_fields-IsConsistent text_ops)

verify_headers_iff_example : (verify_headers text_ops message rules ≡ false) ↔ (
    All (FieldHolds text_ops message.fields_sequence) rules.rules
    × All (λ p. All (PartHolds p (message.url_parts p)) (rules.url_rules p)) url_parts_in_order)
unfolding received add_fields expects_duplicate_fields equivalent less lex tolower
verify_headers_iff_example =
    verify_headers_iff text_laws message rules message-IsConsistent (omega arith) (omega arith)
