-- ===== src/Transaction/Response.antt =====
-- What it is to have read the response of a transaction, and to have accepted and drained it.
use proxy_verifier.Base.{
  ℕ, Bytes, true, false, [], ◌∷◌, ◌++◌, some, ◌==◌, ◌≡◌, refl, take, arith, subst,
}
use proxy_verifier.Fields.Verify.{verify_headers}
use proxy_verifier.Message.Codec.{Parsing, parse_response}
use proxy_verifier.Message.Defs.{HttpHeader, new_header}
use proxy_verifier.Session.Errata.{Errata, Severity, is_ok, is_ok-append, is_ok-append_front}
use proxy_verifier.Session.Headers.{HeadersRead}
use proxy_verifier.Session.Filling.{
  nothing_read, HeaderRead, HeaderReadIf, RunReadIf, read_headers-RunReadIf,
}
use proxy_verifier.Session.Run.{Run, returned, blocked, unfinished, aborted, out_of_bounds}
use proxy_verifier.Session.Socket.{Session}
use proxy_verifier.Transaction.Sending.{max_hdr_size}
use proxy_verifier.Transaction.Running.{
  Txn, Setting, Ended, then_run, is_violation, is_parsed, read_response, drain_response,
}

module _ (e : Setting) (txn : Txn) (sent : Session) where
  -- A header that was read by calls of `read` from a session on.
  abbrev pub IsHeader : Session → ℕ → Session → Bytes → Type 0
  IsHeader s n t w = HeaderRead max_hdr_size e.commit_error s n t w

  -- The first header behind the request, parsed whole and without an error from what was read.
  pub record FirstHeader (n : ℕ) (t : Session) (w : Bytes) (p : Parsing) : Type 0 where
    pub read : IsHeader sent n t w
    pub parsed : parse_response e.ops (record new_header { key = txn.req.key }) (take n w) ≡ some p
    pub no_error : is_ok p.errata ≡ true
    pub complete : is_parsed p.result ≡ true

  -- The header of the response, its session and the contents of its buffer: the first header, or, if
  -- that has the status 100, the one behind it, which is parsed without an error.
  pub data ResponseRead : HttpHeader → Session → Bytes → Type 0 where
    final :
        {n : ℕ} {t : Session} {w : Bytes} {p : Parsing}
        → FirstHeader n t w p
        → (p.header.status == 100) ≡ false
        → ResponseRead p.header (record t { body_offset = n }) w
    continued :
        {n : ℕ} {t : Session} {w : Bytes} {p : Parsing} {m : ℕ} {u : Session} {v : Bytes}
        {q : Parsing}
        → FirstHeader n t w p
        → (p.header.status == 100) ≡ true
        → IsHeader (record t { body_offset = n }) m u v
        → parse_response e.ops new_header (take m v) ≡ some q
        → is_ok q.errata ≡ true
        → ResponseRead q.header (record u { body_offset = m }) v

  -- The response: read, accepted, verified, and drained without an error.
  pub record Passed (s' : Session) : Type 0 where
    pub response : HttpHeader
    pub at_body : Session
    pub buffer : Bytes
    pub read : ResponseRead response at_body buffer
    pub accepted : is_violation txn.rsp.status response.status ≡ false
    pub verified : verify_headers e.ops.text response.fields_rules txn.rsp.fields_rules ≡ false
    pub count : ℕ
    pub notes : Errata
    pub drained : drain_response e txn response at_body buffer ≡ returned ((count, notes), s')
    pub drained_ok : is_ok notes ≡ true

  abbrev pub PassedIf : Run Ended → Type 0
  PassedIf (returned (errata, s')) = is_ok errata ≡ true → Passed s'
  PassedIf blocked = Unit
  PassedIf unfinished = Unit
  PassedIf aborted = Unit
  PassedIf out_of_bounds = Unit

  -- An error that was noted stays one.
  pub failed :
      {A : Type 0} (front back : Errata) → is_ok (front ++ (Severity.error ∷ []) ++ back) ≡ true → A
  failed front back ok =
      let bad : is_ok (Severity.error ∷ []) ≡ true =
        is_ok-append front (Severity.error ∷ [])
          (is_ok-append_front (front ++ (Severity.error ∷ [])) back ok) in
      ground (arith, bad)

  pub then_run-PassedIf :
      {A : Type 0} (r : Run A) (next : A → Run Ended)
      → ((a : A) → r ≡ returned a → PassedIf (next a))
      → PassedIf (then_run r next)
  then_run-PassedIf (returned a) next on = on a refl
  then_run-PassedIf blocked next on = tt
  then_run-PassedIf unfinished next on = tt
  then_run-PassedIf aborted next on = tt
  then_run-PassedIf out_of_bounds next on = tt

  -- A call of `read_response` reads a header from its session on.
  pub read_response-RunReadIf :
      (s : Session) → RunReadIf max_hdr_size e.commit_error s (read_response e s)
  unfolding read_response
  read_response-RunReadIf s =
      read_headers-RunReadIf max_hdr_size e.commit_error max_hdr_size s s [] nothing_read

  pub response-HeaderReadIf :
      (s : Session) (r : HeadersRead)
      → read_response e s ≡ returned r
      → HeaderReadIf max_hdr_size e.commit_error s r
  response-HeaderReadIf s r run =
      subst (λ r'. RunReadIf max_hdr_size e.commit_error s r') run (read_response-RunReadIf s)
