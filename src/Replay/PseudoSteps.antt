-- ===== src/Replay/PseudoSteps.antt =====
-- What each pseudo header asks of a message, and what it sets.
use proxy_verifier.Base.{
  ℕ, ◌+◌, Bytes, Bool, true, false, not, ◌&&◌, ◌||◌, Option, none, some, ◌≡◌, refl, is_empty, arith,
  ◌==◌, if◌then◌else◌,
}
use proxy_verifier.Message.Defs.{HttpHeader}
use proxy_verifier.Replay.Pseudo.{
  Pseudo, pseudo_method, pseudo_scheme, pseudo_authority, pseudo_path, check_pseudos,
}
use proxy_verifier.Session.Errata.{Severity, is_ok, info, is_ok-note}

abbrev pub is_found {ℓ} : {A : Type ℓ} → Option A → Bool
is_found none = false
is_found (some a) = true

abbrev pub add_found : ℕ → Bool → ℕ
add_found n true = n + 1
add_found n false = n

-- A member that may be overwritten.
abbrev pub or_else : Option Bytes → Bytes → Bytes
or_else none former = former
or_else (some value) former = value

-- A member is still to be set if a pseudo header sets it.
abbrev pub is_free : Option Bytes → Bytes → Bool
is_free none former = true
is_free (some value) former = is_empty former

abbrev pub is_free_authority : Option Bytes → Option Bytes → Bytes → Bool
is_free_authority host none former = true
is_free_authority (some host) (some value) former = true
is_free_authority none (some value) former = is_empty former

-- The four of a request, or none of them; none beside that of a response.
abbrev pub is_whole : Bool → Bool → Bool → Bool → Bool → Bool
is_whole m s a p true = not (m || (s || (a || p)))
is_whole m s a p false = (m && (s && (a && p))) || not (m || (s || (a || p)))

abbrev pub members_of : HttpHeader → Bytes × (Bytes × (Bytes × Bytes))
members_of h =
    (h.method, (h.members.pseudo_scheme, (h.members.pseudo_authority, h.members.pseudo_path)))

pub method-is_ok :
    (o : Option Bytes) (p : Pseudo)
    → is_ok (pseudo_method o p).errata ≡ (is_ok p.errata && is_free o p.message.method)
unfolding pseudo_method
method-is_ok none p = ground arith
method-is_ok (some v) p = ground (arith, is_ok-note p.errata Severity.error)

pub scheme-is_ok :
    (o : Option Bytes) (p : Pseudo)
    → is_ok (pseudo_scheme o p).errata
      ≡ (is_ok p.errata && is_free o p.message.members.pseudo_scheme)
unfolding pseudo_scheme
scheme-is_ok none p = ground arith
scheme-is_ok (some v) p = ground (arith, is_ok-note p.errata Severity.error)

pub path-is_ok :
    (o : Option Bytes) (p : Pseudo)
    → is_ok (pseudo_path o p).errata ≡ (is_ok p.errata && is_free o p.message.members.pseudo_path)
unfolding pseudo_path
path-is_ok none p = ground arith
path-is_ok (some v) p = ground (arith, is_ok-note p.errata Severity.error)

pub authority-is_ok :
    (host o : Option Bytes) (p : Pseudo)
    → is_ok (pseudo_authority host o p).errata
      ≡ (is_ok p.errata && is_free_authority host o p.message.members.pseudo_authority)
unfolding pseudo_authority
authority-is_ok host none p = ground arith
authority-is_ok none (some v) p = ground (arith, is_ok-note p.errata Severity.error)
authority-is_ok (some host) (some v) p = ground (arith, is_ok-note p.errata info)

pub check-is_ok :
    (p : Pseudo)
    → is_ok (check_pseudos p).errata
      ≡ (is_ok p.errata && (p.number == 0 || (p.number == (if p.message.is_request then 4 else 1))))
unfolding check_pseudos
check-is_ok p = ground (arith, is_ok-note p.errata Severity.error)

-- The members, the kind, the status and the number of pseudo headers.
abbrev pub Stage : Type 0
Stage = (Bytes × (Bytes × (Bytes × Bytes))) × (Bool × (ℕ × ℕ))

abbrev pub stage : Pseudo → Stage
stage p = (members_of p.message, (p.message.is_request, (p.message.status, p.number)))

abbrev pub found_request : Bool → Bool × (ℕ × ℕ) → Bool × (ℕ × ℕ)
found_request found (kind, (status, n)) = (found || kind, (status, add_found n found))

abbrev pub put_method : Option Bytes → Stage → Stage
put_method o ((m, (s, (a, p))), rest) =
    ((or_else o m, (s, (a, p))), found_request (is_found o) rest)

abbrev pub put_scheme : Option Bytes → Stage → Stage
put_scheme o ((m, (s, (a, p))), rest) =
    ((m, (or_else o s, (a, p))), found_request (is_found o) rest)

abbrev pub put_authority : Option Bytes → Stage → Stage
put_authority o ((m, (s, (a, p))), rest) =
    ((m, (s, (or_else o a, p))), found_request (is_found o) rest)

abbrev pub put_path : Option Bytes → Stage → Stage
put_path o ((m, (s, (a, p))), rest) = ((m, (s, (a, or_else o p))), found_request (is_found o) rest)

pub stage-method :
    (o : Option Bytes) (p : Pseudo) → stage (pseudo_method o p) ≡ put_method o (stage p)
unfolding pseudo_method
stage-method none p = refl
stage-method (some v) p = refl

pub stage-scheme :
    (o : Option Bytes) (p : Pseudo) → stage (pseudo_scheme o p) ≡ put_scheme o (stage p)
unfolding pseudo_scheme
stage-scheme none p = refl
stage-scheme (some v) p = refl

pub stage-authority :
    (host o : Option Bytes) (p : Pseudo)
    → stage (pseudo_authority host o p) ≡ put_authority o (stage p)
unfolding pseudo_authority
stage-authority host none p = refl
stage-authority none (some v) p = ground arith
stage-authority (some host) (some v) p = refl

pub stage-path : (o : Option Bytes) (p : Pseudo) → stage (pseudo_path o p) ≡ put_path o (stage p)
unfolding pseudo_path
stage-path none p = refl
stage-path (some v) p = refl

pub members_of-check : (p : Pseudo) → members_of (check_pseudos p).message ≡ members_of p.message
unfolding check_pseudos
members_of-check p = ground arith
