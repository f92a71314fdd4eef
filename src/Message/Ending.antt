-- ===== src/Message/Ending.antt =====
-- The parsers of messages come to an end.
use proxy_verifier.Base.{
  ℕ, zero, suc, ◌-◌, ◌≤◌, Bytes, Bool, true, false, [], ◌∷◌, Option, none, some, ◌==◌, ◌≡◌, refl,
  sym, subst, is_space, is_empty, length, take, arith, if◌then◌else◌,
}
use proxy_verifier.Message.Codec.{
  MessageOps, Parsing, parse_fields, parse_line, request_field, response_field, request_lines,
  parse_request, response_lines, parse_response, with_key, incomplete, empty_line,
}
use proxy_verifier.Message.Defs.{HttpHeader}
use proxy_verifier.Message.Lines.{length-split_if}
use proxy_verifier.Message.Text.{LineLaws}
use proxy_verifier.Rules.Search.{find_text}
use proxy_verifier.Session.Headers.{http_eoh}

abbrev pub Ends : Option Parsing → Type 0
Ends o = (r : Parsing) × (o ≡ some r)

module _ (ops : MessageOps) (laws : LineLaws ops.lines) where
  parse_fields-Ends :
      (on_field : HttpHeader → Bytes → Bytes → HttpHeader) (fuel : ℕ) (text : Bytes) (p : Parsing)
      → length text ≤ fuel
      → Ends (parse_fields ops on_field fuel text p)
  unfolding parse_fields
  parse_fields-Ends on_field fuel [] p enough = (p, refl)
  parse_fields-Ends on_field zero (c ∷ cs) p enough = absurd (omega (arith, enough))
  parse_fields-Ends on_field (suc fuel) (c ∷ cs) p enough =
      let cut = ops.lines.take_prefix_at b'\n' (c ∷ cs) in
      let shorter : length cut.1 ≤ length cs =
        subst (λ v. length v.1 ≤ length cs) (sym (laws.at_splits b'\n' (c ∷ cs)))
          (length-split_if (λ d. d == b'\n') c cs) in
      parse_fields-Ends on_field fuel cut.1
        (parse_line ops on_field (ops.lines.rtrim_if is_space cut.0) p)
        (omega (arith, enough, shorter))

  with_key-Ends : (o : Option Parsing) → Ends o → Ends (with_key ops o)
  with_key-Ends none (r, e) = ground (arith, e)
  with_key-Ends (some p) (r, e) = (_, refl)

  unless_empty :
      (b : Bool) (h : HttpHeader) (o : Option Parsing)
      → Ends o
      → Ends (if b then empty_line ops h else with_key ops o)
  unless_empty true h o t = (_, refl)
  unless_empty false h o t = with_key-Ends o t

  -- Both parsers end on every text: the rounds that they may take are enough, whatever the lines are.
  pub parse-Ends :
      (h : HttpHeader) (text : Bytes)
      → Ends (parse_request ops h text) × Ends (parse_response ops h text)
  unfolding parse_request request_lines parse_response response_lines
  parse-Ends h text = (by_end (find_text text http_eoh), by_end' (find_text text http_eoh))
    where
      cut : Bytes × Bytes
      cut = ops.lines.take_prefix_at b'\n' (take (length text - 4) text)

      by_end :
          (o : Option ℕ)
          → Ends (elim o as (λ o'. Option Parsing) [
            | none ↦ incomplete ops h
            | some i ↦ request_lines ops h cut
          ])
      by_end none = (_, refl)
      by_end (some i) =
          unless_empty (is_empty cut.0) h _
            (parse_fields-Ends (request_field ops) (length cut.1) cut.1 _ (omega arith))

      by_end' :
          (o : Option ℕ)
          → Ends (elim o as (λ o'. Option Parsing) [
            | none ↦ incomplete ops h
            | some eoh ↦ response_lines ops h (ops.lines.take_prefix_at b'\n' (take eoh text))
          ])
      by_end' none = (_, refl)
      by_end' (some eoh) =
          let at = ops.lines.take_prefix_at b'\n' (take eoh text) in
          unless_empty (is_empty (ops.lines.rtrim_if is_space at.0)) h _
            (parse_fields-Ends (response_field ops) (length at.1) at.1 _ (omega arith))
