-- ===== src/Replay/PseudoKinds.antt =====
-- What `process_pseudo_headers` takes without an error, and the members that it sets.
use proxy_verifier.Base.{
  ℕ, Bytes, Bool, true, not, ◌&&◌, ◌||◌, [], ◌∷◌, ◌++◌, Option, none, some, ◌≡◌, refl, ap, ◌∙◌,
  codes, arith, ◌==◌, if◌then◌else◌,
}
use proxy_verifier.Message.Codec.{MessageOps}
use proxy_verifier.Message.Defs.{HttpHeader, find_field}
use proxy_verifier.Replay.Pseudo.{
  Pseudo, pseudo_method, pseudo_scheme, pseudo_authority, pseudo_path, pseudo_status,
  is_status_text, pseudo_fields, process_pseudo_headers,
}
use proxy_verifier.Session.Errata.{Severity, is_ok, is_ok-note}
use proxy_verifier.Replay.PseudoSteps.{
  Stage, add_found, authority-is_ok, check-is_ok, is_found, is_free, is_free_authority, is_whole,
  members_of, members_of-check, method-is_ok, or_else, path-is_ok, put_authority, put_method,
  put_path, put_scheme, scheme-is_ok, stage, stage-authority, stage-method, stage-path,
  stage-scheme,
}

module _ (ops : MessageOps) (parsed : Bytes → Bytes) where
  -- The status is not set by its node, and is a number in [1..599].
  abbrev pub is_free_status : Option Bytes → ℕ → Bool
  is_free_status none former = true
  is_free_status (some text) former = former == 0 && is_status_text ops parsed text

  status-is_ok :
      (o : Option Bytes) (p : Pseudo)
      → is_ok (pseudo_status ops parsed o p).errata
        ≡ (is_ok p.errata && is_free_status o p.message.status)
  unfolding pseudo_status
  status-is_ok none p = ground arith
  status-is_ok (some text) p = ground (
    arith,
    is_ok-note p.errata Severity.error,
    is_ok-note (p.errata ++ (Severity.error ∷ [])) Severity.error,
  )

  stage-status :
      (o : Option Bytes) (p : Pseudo)
      → ((pseudo_status ops parsed o p).number ≡ add_found p.number (is_found o))
        × (((pseudo_status ops parsed o p).message.is_request
              ≡ (not (is_found o) && p.message.is_request))
            × (members_of (pseudo_status ops parsed o p).message ≡ members_of p.message))
  unfolding pseudo_status
  stage-status none p = (refl, (ground arith, refl))
  stage-status (some text) p = (refl, (refl, ground arith))

  module _ (m s host a p st : Option Bytes) (h : HttpHeader) where
    abbrev start : Pseudo
    start = record { message = h; errata = []; number = 0 }

    abbrev behind_scheme : Pseudo
    behind_scheme = pseudo_scheme s (pseudo_method m start)

    abbrev behind_authority : Pseudo
    behind_authority = pseudo_authority host a behind_scheme

    abbrev behind_path : Pseudo
    behind_path = pseudo_path p behind_authority

    at_scheme : stage behind_scheme ≡ put_scheme s (put_method m (stage start))
    at_scheme = stage-scheme s (pseudo_method m start) ∙ ap (put_scheme s) (stage-method m start)

    at_authority :
        stage behind_authority ≡ put_authority a (put_scheme s (put_method m (stage start)))
    at_authority = stage-authority host a behind_scheme ∙ ap (put_authority a) at_scheme

    at_path :
        stage behind_path ≡ put_path p (put_authority a (put_scheme s (put_method m (stage start))))
    at_path = stage-path p behind_authority ∙ ap (put_path p) at_authority

    whole_lem :
        (fm fs fa fp ft kind : Bool)
        → (let n = add_found (add_found (add_found (add_found (add_found 0 fm) fs) fa) fp) ft in
            (n == 0) || (n == (if not ft && (fp || (fa || (fs || (fm || kind)))) then 4 else 1)))
          ≡ is_whole fm fs fa fp ft
    whole_lem fm fs fa fp ft kind = ground arith

    abbrev request_ok : Bool
    request_ok =
        is_free m h.method
        && (is_free s h.members.pseudo_scheme
            && (is_free_authority host a h.members.pseudo_authority
                && is_free p h.members.pseudo_path))

    behind_path-is_ok : is_ok behind_path.errata ≡ request_ok
    behind_path-is_ok =
        let of_path =
          path-is_ok p behind_authority
          ∙ ap (λ (t : Stage). is_ok behind_authority.errata && is_free p t.0.1.1.1) at_authority in
        let of_authority =
          authority-is_ok host a behind_scheme
          ∙ ap (λ (t : Stage). is_ok behind_scheme.errata && is_free_authority host a t.0.1.1.0)
              at_scheme in
        let of_scheme =
          scheme-is_ok s (pseudo_method m start)
          ∙ ap (λ (t : Stage). is_ok (pseudo_method m start).errata && is_free s t.0.1.0)
              (stage-method m start) in
        ground (arith, of_path, of_authority, of_scheme, method-is_ok m start)

    abbrev behind_status : Pseudo
    behind_status = pseudo_status ops parsed st behind_path

    abbrev whole : Bool
    whole = is_whole (is_found m) (is_found s) (is_found a) (is_found p) (is_found st)

    behind_status-whole :
        ((behind_status.number == 0)
          || (behind_status.number == (if behind_status.message.is_request then 4 else 1)))
        ≡ whole
    behind_status-whole =
        let (counted, (kind, members)) = stage-status st behind_path in
        rw (counted, kind, ap (λ (t : Stage). t.1.1.1) at_path, ap (λ (t : Stage). t.1.0) at_path)
          (whole_lem (is_found m) (is_found s) (is_found a) (is_found p) (is_found st) h.is_request)

    fields-is_ok :
        is_ok (pseudo_fields ops parsed m s host a p st h).errata
        ≡ ((request_ok && is_free_status st h.status) && whole)
    unfolding pseudo_fields
    fields-is_ok =
        let of_status =
          status-is_ok st behind_path
          ∙ ap (λ (t : Stage). is_ok behind_path.errata && is_free_status st t.1.1.0) at_path in
        let checked = check-is_ok behind_status in
        checked
        ∙ (ap (λ b. is_ok behind_status.errata && b) behind_status-whole
            ∙ ap (λ b. b && whole)
                (of_status ∙ ap (λ b. b && is_free_status st h.status) behind_path-is_ok))

    fields-members : members_of (pseudo_fields ops parsed m s host a p st h).message ≡ (
      or_else m h.method,
      (
        or_else s h.members.pseudo_scheme,
        (or_else a h.members.pseudo_authority, or_else p h.members.pseudo_path),
      ),
    )
    unfolding pseudo_fields
    fields-members =
        let (counted, (kind, members)) = stage-status st behind_path in
        members_of-check behind_status ∙ (members ∙ ap (λ (t : Stage). t.0) at_path)

  -- The tests of `process_pseudo_headers`, for what its lookups find.
  abbrev pub accepts_pseudos : HttpHeader → (Bytes → Option Bytes) → Bool
  accepts_pseudos h field =
      let found = λ (name : Bytes). is_found (field name) in
      ((is_free (field (codes ":method")) h.method
          && (is_free (field (codes ":scheme")) h.members.pseudo_scheme
              && (is_free_authority (field (codes "host")) (field (codes ":authority"))
                    h.members.pseudo_authority
                  && is_free (field (codes ":path")) h.members.pseudo_path)))
        && is_free_status (field (codes ":status")) h.status)
      && is_whole (found (codes ":method")) (found (codes ":scheme")) (found (codes ":authority"))
          (found (codes ":path")) (found (codes ":status"))

  -- `process_pseudo_headers` comes back without an error exactly if the fields have the four pseudo
  -- headers of a request and not `:status`, or `:status` alone, or none; no other node has set a member
  -- that one of them sets, but for the authority where there is a host field; and the status is a
  -- number in [1..599]. Each of the four members is the value of its pseudo header, if there is one.
  pub process_pseudo_headers_iff :
      (h : HttpHeader)
      → let field = find_field ops.text ops.svtou h in
        (is_ok (process_pseudo_headers ops parsed h).errata ≡ accepts_pseudos h field)
        × (members_of (process_pseudo_headers ops parsed h).message ≡ (
          or_else (field (codes ":method")) h.method,
          (
            or_else (field (codes ":scheme")) h.members.pseudo_scheme,
            (
              or_else (field (codes ":authority")) h.members.pseudo_authority,
              or_else (field (codes ":path")) h.members.pseudo_path,
            ),
          ),
        ))
  unfolding process_pseudo_headers
  process_pseudo_headers_iff h =
      let field = find_field ops.text ops.svtou h in
      let m = field (codes ":method") in
      let s = field (codes ":scheme") in
      let host = field (codes "host") in
      let a = field (codes ":authority") in
      let p = field (codes ":path") in
      let st = field (codes ":status") in
      (fields-is_ok m s host a p st h, fields-members m s host a p st h)
