-- ===== src/Session/Errata.antt =====
-- `swoc::Errata` as the code uses it: messages are added, and none may be an error. Of a message
-- the model keeps its severity.
use proxy_verifier.Base.{Bool, true, false, ◌&&◌, List, [], ◌∷◌, ◌++◌, ◌≡◌, arith}

pub data Severity : Type 0 where
  diag info error : Severity

abbrev pub Errata : Type 0
Errata = List Severity

abbrev pub is_fine : Severity → Bool
is_fine error = false
is_fine diag = true
is_fine info = true

abbrev pub is_ok : Errata → Bool
is_ok [] = true
is_ok (m ∷ ms) = is_fine m && is_ok ms

-- `swoc::Rv`
abbrev pub Rv : Type 0 → Type 0
Rv A = A × Errata

pub is_ok-append : (a b : Errata) → is_ok (a ++ b) ≡ true → is_ok b ≡ true
is_ok-append [] b h = h
is_ok-append (m ∷ a) b h = is_ok-append a b (ground (arith, h))

pub is_ok-append_front : (a b : Errata) → is_ok (a ++ b) ≡ true → is_ok a ≡ true
is_ok-append_front [] b ok = ground arith
is_ok-append_front (m ∷ a) b ok = ground (arith, ok, is_ok-append_front a b (ground (arith, ok)))

pub is_ok_both : (a b : Errata) → is_ok a ≡ true → is_ok b ≡ true → is_ok (a ++ b) ≡ true
is_ok_both [] b p q = q
is_ok_both (m ∷ a) b p q = ground (arith, p, is_ok_both a b (ground (arith, p)) q)

-- Messages with an error at the end are not free of errors.
pub error_stays {ℓ} : {A : Type ℓ} (front : Errata) → is_ok (front ++ (error ∷ [])) ≡ true → A
error_stays front ok =
    let bad : is_ok (error ∷ []) ≡ true = is_ok-append front (error ∷ []) ok in ground (arith, bad)

pub is_ok-note : (e : Errata) (s : Severity) → is_ok (e ++ (s ∷ [])) ≡ (is_ok e && is_fine s)
is_ok-note [] s = ground arith
is_ok-note (m ∷ e) s = ground (arith, is_ok-note e s)
