-- ===== src/Tests/Text.antt =====
-- Text operations that meet the laws of the interface.
use proxy_verifier.Base.{
  Bytes, true, ◌++◌, ◌≡◌, ◌↔◌, refl, sym, ap, ◌∙◌, ◌-◌, map, is_eq, lex, lex-eq_iff, lex_self,
  length, take, drop, take-append-drop, take-append, drop-append, length-append, tolower, arith,
}
use proxy_verifier.Swoc.{TextOps, TextLaws}

abbrev pub text_ops : TextOps
unfolding lex
text_ops = record {
  strcmp = lex;
  strcasecmp = λ a b. lex (map tolower a) (map tolower b);
  starts_with = λ view text. is_eq (lex (take (length text) view) text);
  ends_with = λ view text. is_eq (lex (drop (length view - length text) view) text);
}

is_eq-lex : (a b : Bytes) → (is_eq (lex a b) ≡ true) ↔ (a ≡ b)
is_eq-lex a b = (λ h. (lex-eq_iff a b).0 (ground arith), λ e. rw (e, lex_self b))

starts :
    (view text : Bytes)
    → (is_eq (lex (take (length text) view) text) ≡ true) ↔ ((rest : Bytes) × (view ≡ text ++ rest))
starts view text = (
  λ h. (
    drop (length text) view,
    sym (take-append-drop (length text) view)
        ∙ ap (λ t. t ++ drop (length text) view) ((is_eq-lex _ text).0 h),
  ),
  λ (rest, e).
      (is_eq-lex _ text).1 (ap (take (length text)) e ∙ take-append (length text) text rest refl),
)

ends :
    (view text : Bytes)
    → (is_eq (lex (drop (length view - length text) view) text) ≡ true)
      ↔ ((front : Bytes) × (view ≡ front ++ text))
ends view text =
    let n = length view - length text in
    (
      λ h. (
        take n view,
        sym (take-append-drop n view) ∙ ap (λ t. take n view ++ t) ((is_eq-lex _ text).0 h),
      ),
      λ (front, e). (is_eq-lex _ text).1 (
          ap (drop n) e
          ∙ drop-append n front text (omega (arith, ap length e, length-append front text))),
    )

pub text_laws : TextLaws text_ops
unfolding text_ops
text_laws = record {
  strcmp_lex = λ a b. refl;
  strcasecmp_lex = λ a b. refl;
  starts_with_iff = starts;
  ends_with_iff = ends;
}
