-- ===== src/Transaction/Passing.antt =====
-- A transaction without an error has sent its request and has had the response that it expects.
use proxy_verifier.Base.{
  ℕ, Bytes, Bool, true, false, not, [], ◌∷◌, ◌++◌, Option, none, some, ◌==◌, ◌≡◌, refl, take,
  if◌then◌else◌,
}
use proxy_verifier.Drain.Body.{Drained}
use proxy_verifier.Fields.Verify.{verify_headers}
use proxy_verifier.Message.Codec.{Parsing, parse_response}
use proxy_verifier.Message.Defs.{HttpHeader, new_header}
use proxy_verifier.Session.Errata.{
  error_stays, Errata, Severity, diag, is_ok, is_ok-append, is_ok-append_front,
}
use proxy_verifier.Session.Headers.{HeadersRead}
use proxy_verifier.Session.Filling.{HeaderReadIf}
use proxy_verifier.Session.Run.{Run, returned, unfinished}
use proxy_verifier.Session.Socket.{Session}
use proxy_verifier.Transaction.Sending.{max_hdr_size}
use proxy_verifier.Transaction.Running.{
  Txn, Setting, Ended, then_run, is_violation, is_parsed, read_response, drain_response,
  after_drain, check_response, after_continue, after_parse, after_headers,
}
use proxy_verifier.Transaction.Response.{
  IsHeader, FirstHeader, ResponseRead, final, continued, Passed, PassedIf, failed,
  then_run-PassedIf, response-HeaderReadIf,
}

module _ (e : Setting) (txn : Txn) (sent : Session) where
  check_response-PassedIf :
      (errata : Errata) (h : HttpHeader) (s : Session) (w : Bytes)
      → ResponseRead e txn sent h s w
      → PassedIf e txn sent (check_response e txn errata h s w)
  unfolding check_response
  check_response-PassedIf errata h s w wire =
      by_test (is_violation txn.rsp.status h.status) _ refl refl
    where
      noted : Errata
      noted = errata ++ (diag ∷ [])

      drains :
          (notes : Errata)
          → is_violation txn.rsp.status h.status ≡ false
          → (is_ok notes ≡ true
              → verify_headers e.ops.text h.fields_rules txn.rsp.fields_rules ≡ false)
          → (d : Drained) → drain_response e txn h s w ≡ returned d
          → PassedIf e txn sent (after_drain e notes d)
      drains notes accepted verified ((n, more), s') run = at (is_ok (notes ++ more)) refl
        where
          at :
              (b : Bool)
              → is_ok (notes ++ more) ≡ b
              → is_ok (if b then notes ++ more else (notes ++ more) ++ (Severity.error ∷ [])) ≡ true
              → Passed e txn sent s'
          at false bad ok = error_stays (notes ++ more) ok
          at true good ok = record {
            response = h;
            at_body = s;
            buffer = w;
            read = wire;
            accepted = accepted;
            verified = verified (is_ok-append_front notes more good);
            count = n;
            notes = more;
            drained = run;
            drained_ok = is_ok-append notes more good;
          }

      by_test :
          (violation issue : Bool)
          → is_violation txn.rsp.status h.status ≡ violation
          → verify_headers e.ops.text h.fields_rules txn.rsp.fields_rules ≡ issue
          → PassedIf e txn sent (
              if violation
              then then_run
                  (drain_response e txn h s w)
                  (λ d. returned (noted ++ (Severity.error ∷ []) ++ d.0.1, d.1))
              else if issue
              then then_run
                  (drain_response e txn h s w)
                  (after_drain e (noted ++ (Severity.error ∷ [])))
              else then_run (drain_response e txn h s w) (after_drain e noted))
      by_test true issue v i =
          then_run-PassedIf e txn sent (drain_response e txn h s w) _
            (λ d run. λ ok. failed e txn sent noted d.0.1 ok)
      by_test false true v i =
          then_run-PassedIf e txn sent (drain_response e txn h s w) _
            (drains (noted ++ (Severity.error ∷ [])) v (λ ok. error_stays noted ok))
      by_test false false v i =
          then_run-PassedIf e txn sent (drain_response e txn h s w) _ (drains noted v (λ ok. i))

  after_continue-PassedIf :
      (errata : Errata) (n : ℕ) (t : Session) (w : Bytes) (p : Parsing) (r : HeadersRead)
      → FirstHeader e txn sent n t w p
      → (p.header.status == 100) ≡ true
      → HeaderReadIf max_hdr_size e.commit_error (record t { body_offset = n }) r
      → PassedIf e txn sent (after_continue e txn errata r)
  unfolding after_continue
  after_continue-PassedIf errata n t w p ((none, notes), u, v) first cont from =
      λ ok. error_stays errata ok
  after_continue-PassedIf errata n t w p ((some m, notes), u, v) first cont from =
      by_notes (is_ok notes) (parse_response e.ops new_header (take m v)) refl
    where
      s' : Session
      s' = record u { body_offset = m }

      checked : Option Parsing → Run Ended
      checked o = elim o as (λ o'. Run Ended) [
        | none ↦ unfinished
        | some q ↦
            if is_ok q.errata
            then check_response e txn errata q.header s' v
            else returned (errata ++ (Severity.error ∷ []), s')
      ]

      by_parse :
          (q : Parsing) (b : Bool)
          → parse_response e.ops new_header (take m v) ≡ some q
          → is_ok q.errata ≡ b
          → PassedIf e txn sent (
              if b
              then check_response e txn errata q.header s' v
              else returned (errata ++ (Severity.error ∷ []), s'))
      by_parse q true parsed fine =
          check_response-PassedIf errata q.header s' v (continued first cont from parsed fine)
      by_parse q false parsed bad = λ ok. error_stays errata ok

      by_notes :
          (b : Bool) (o : Option Parsing)
          → parse_response e.ops new_header (take m v) ≡ o
          → PassedIf e txn sent
              (if b then checked o else returned (errata ++ (Severity.error ∷ []), u))
      by_notes true none parsed = tt
      by_notes true (some q) parsed = by_parse q (is_ok q.errata) parsed refl
      by_notes false o parsed = λ ok. error_stays errata ok

  after_parse-PassedIf :
      (errata : Errata) (n : ℕ) (t : Session) (w : Bytes) (p : Parsing)
      → IsHeader e txn sent sent n t w
      → parse_response e.ops (record new_header { key = txn.req.key }) (take n w) ≡ some p
      → PassedIf e txn sent (after_parse e txn errata p (record t { body_offset = n }) w)
  unfolding after_parse
  after_parse-PassedIf errata n t w p from parsed =
      by_test (is_ok p.errata) (is_parsed p.result) (p.header.status == 100) refl refl refl
    where
      all : Errata
      all = errata ++ p.errata

      s : Session
      s = record t { body_offset = n }

      by_test :
          (fine complete continues : Bool)
          → is_ok p.errata ≡ fine
          → is_parsed p.result ≡ complete
          → (p.header.status == 100) ≡ continues
          → PassedIf e txn sent (
              if not fine
              then returned (all ++ (Severity.error ∷ []), s)
              else if not complete
              then returned (all ++ (Severity.error ∷ []), s)
              else if continues
              then then_run (read_response e s) (after_continue e txn (all ++ (diag ∷ [])))
              else check_response e txn all p.header s w)
      by_test false complete continues bad whole cont = λ ok. error_stays all ok
      by_test true false continues fine whole cont = λ ok. error_stays all ok
      by_test true true b fine whole cont =
          let first : FirstHeader e txn sent n t w p = record {
            read = from;
            parsed = parsed;
            no_error = fine;
            complete = whole;
          } in
          by_status b first cont
        where
          by_status :
              (b' : Bool)
              → FirstHeader e txn sent n t w p
              → (p.header.status == 100) ≡ b'
              → PassedIf e txn sent (
                  if b'
                  then then_run (read_response e s) (after_continue e txn (all ++ (diag ∷ [])))
                  else check_response e txn all p.header s w)
          by_status true first cont' = then_run-PassedIf e txn sent (read_response e s) _ (λ r run.
              after_continue-PassedIf (all ++ (diag ∷ [])) n t w p r first cont'
                (response-HeaderReadIf e txn sent s r run))
          by_status false first other = check_response-PassedIf all p.header s w (final first other)

  pub after_headers-PassedIf :
      (errata : Errata) (r : HeadersRead)
      → HeaderReadIf max_hdr_size e.commit_error sent r
      → PassedIf e txn sent (after_headers e txn errata r)
  unfolding after_headers
  after_headers-PassedIf errata ((none, notes), s, w) from = λ ok. error_stays (errata ++ notes) ok
  after_headers-PassedIf errata ((some n, notes), s, w) from =
      by_notes (is_ok notes) (parse_response e.ops h (take n w)) refl
    where
      h : HttpHeader
      h = record new_header { key = txn.req.key }

      s' : Session
      s' = record s { body_offset = n }

      by_notes :
          (b : Bool) (o : Option Parsing)
          → parse_response e.ops h (take n w) ≡ o
          → PassedIf e txn sent (
              if b
              then (elim o as (λ o'. Run Ended) [
                | none ↦ unfinished
                | some p ↦ after_parse e txn (errata ++ notes) p s' w
              ])
              else returned (errata ++ notes ++ (Severity.error ∷ []), s))
      by_notes true none parsed = tt
      by_notes true (some p) parsed = after_parse-PassedIf (errata ++ notes) n s w p from parsed
      by_notes false o parsed = λ ok. error_stays (errata ++ notes) ok
