-- ===== src/Url/Pieces.antt =====
-- The pieces of a text that `parse_url` takes with `substr`.
use proxy_verifier.Base.{
  ℕ, suc, ◌+◌, ◌<◌, Bytes, false, [], ◌∷◌, ◌++◌, Option, none, some, ◌==◌, ◌≡◌, refl, sym, ap, ◌∙◌,
  codes, append_assoc, length, length-append, take, take-append, arith, if◌then◌else◌,
}
use proxy_verifier.Url.Cuts.{port_at}
use proxy_verifier.Url.Find.{take-drop}
use proxy_verifier.Url.Marks.{mark_at, scheme_end}
use proxy_verifier.Url.Parse.{npos, minus, substr}
use proxy_verifier.Url.Printed.{marked, scheme_text, or_former}

-- A piece between two positions.
pub substr_piece :
    (view front piece rest : Bytes) (at to : ℕ)
    → view ≡ front ++ (piece ++ rest)
    → at ≡ length front
    → to ≡ at + length piece
    → to < npos
    → substr view at (minus to at) ≡ piece
substr_piece view front piece rest at to e start end fits =
    ap (λ v. substr v at (minus to at)) e
    ∙ take-drop at (minus to at) front piece rest start (omega (arith, end, fits))

-- The text behind a mark.
pub substr_text :
    (view front text rest : Bytes) (at to c : ℕ)
    → view ≡ front ++ ((c ∷ text) ++ rest)
    → at ≡ length front
    → to ≡ at + suc (length text)
    → to < npos
    → substr view (suc at) (minus to (suc at)) ≡ text
substr_text view front text rest at to c e start end fits =
    substr_piece view (front ++ (c ∷ [])) text rest (suc at) to
      (e ∙ sym (append_assoc front (c ∷ []) (text ++ rest)))
      (omega (arith, start, length-append front (c ∷ []))) (omega (arith, end)) fits

-- A part that stands behind its mark, or keeps its former value.
pub substr-marked :
    (view front rest former : Bytes) (at to c : ℕ) (o : Option Bytes)
    → view ≡ front ++ (marked c o ++ rest)
    → at ≡ length front
    → to ≡ at + length (marked c o)
    → to < npos
    → (if mark_at at o == npos
        then former
        else substr view (suc (mark_at at o)) (minus to (suc (mark_at at o))))
      ≡ or_former former o
substr-marked view front rest former at to c none e start end fits = refl
substr-marked view front rest former at to c (some text) e start end fits =
    let there : (at == npos) ≡ false = ground (arith, end, fits) in
    rw there (substr_text view front text rest at to c e start end fits)

pub substr_port :
    (view front rest former : Bytes) (at to c : ℕ) (o : Option Bytes)
    → view ≡ front ++ (marked c o ++ rest)
    → at ≡ length front
    → to ≡ at + length (marked c o)
    → to < npos
    → (if port_at at o == npos
        then former
        else substr view (port_at at o) (minus to (port_at at o)))
      ≡ or_former former o
substr_port view front rest former at to c none e start end fits = refl
substr_port view front rest former at to c (some text) e start end fits =
    let there : (suc at == npos) ≡ false = ground (arith, end, fits) in
    rw there (substr_text view front text rest at to c e start end fits)

abbrev pub scheme_part : Bytes → Bytes → ℕ → Bytes
scheme_part view former at = if at == npos then former else substr view 0 at

pub scheme_part-scheme_text :
    (o : Option Bytes) (former rest : Bytes)
    → length (scheme_text o) < npos
    → scheme_part (scheme_text o ++ rest) former (scheme_end o) ≡ or_former former o
scheme_part-scheme_text none former rest fits = refl
scheme_part-scheme_text (some text) former rest fits =
    let there : (length text == npos) ≡ false = ground (arith, length-append text (codes "://")) in
    rw there (
      ap (take (length text)) (append_assoc text (codes "://") rest)
      ∙ take-append (length text) text _ refl)
