-- ===== src/Url/Find.antt =====
-- What the searches and the pieces of a URL are, for a text that is written in pieces.
use proxy_verifier.Base.{
  ℕ, suc, ◌+◌, Bytes, true, false, [], ◌∷◌, ◌++◌, Option, none, some, ◌==◌, ◌≡◌, refl, ap, ◌∙◌,
  codes, All, length, take, drop, take-append, drop-append, arith,
}
use proxy_verifier.Rules.Search.{shifted, find_text, matches_front}

abbrev pub Avoids : ℕ → Bytes → Type 0
Avoids c = All (λ b. (b == c) ≡ false)

pub find_text-mark :
    (c : ℕ) (front rest : Bytes)
    → Avoids c front
    → find_text (front ++ (c ∷ rest)) (c ∷ []) ≡ some (length front)
unfolding find_text matches_front
find_text-mark c [] rest h = let same : (c == c) ≡ true = ground arith in rw same refl
find_text-mark c (b ∷ front) rest h = rw (h.0, find_text-mark c front rest h.1) refl

pub find_text-Avoids : (c : ℕ) (view : Bytes) → Avoids c view → find_text view (c ∷ []) ≡ none
unfolding find_text matches_front
find_text-Avoids c [] h = refl
find_text-Avoids c (b ∷ view) h = rw (h.0, find_text-Avoids c view h.1) refl

abbrev pub further : ℕ → Option ℕ → Option ℕ
further n none = none
further n (some i) = some (n + i)

-- A text without the byte is passed over.
pub find_text-append :
    (c : ℕ) (front view : Bytes)
    → Avoids c front
    → find_text (front ++ view) (c ∷ []) ≡ further (length front) (find_text view (c ∷ []))
unfolding find_text matches_front
find_text-append c [] view h = no_further (find_text view (c ∷ []))
  where
    no_further : (o : Option ℕ) → o ≡ further 0 o
    no_further none = refl
    no_further (some i) = ap some (omega arith)
find_text-append c (b ∷ front) view h =
    rw h.0 (ap shifted (find_text-append c front view h.1) ∙ one_further (find_text view (c ∷ [])))
  where
    one_further :
        (o : Option ℕ) → shifted (further (length front) o) ≡ further (suc (length front)) o
    one_further none = refl
    one_further (some i) = ap some (omega arith)

pub find_text-scheme :
    (front rest : Bytes)
    → Avoids b':' front
    → find_text (front ++ (codes "://" ++ rest)) (codes "://") ≡ some (length front)
unfolding find_text matches_front
find_text-scheme [] rest h = refl
find_text-scheme (b ∷ front) rest h = rw (h.0, find_text-scheme front rest h.1) refl

-- A piece of a text.
pub take-drop :
    (at n : ℕ) (front piece rest : Bytes)
    → at ≡ length front
    → n ≡ length piece
    → take n (drop at (front ++ (piece ++ rest))) ≡ piece
take-drop at n front piece rest e l =
    ap (take n) (drop-append at front (piece ++ rest) e) ∙ take-append n piece rest l
