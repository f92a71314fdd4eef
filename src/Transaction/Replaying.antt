-- ===== src/Transaction/Replaying.antt =====
-- A transaction as a whole, if it has no error.
use proxy_verifier.Base.{
  ℕ, Bool, true, false, [], ◌∷◌, ◌++◌, Option, ◌≡◌, refl, arith, if◌then◌else◌,
}
use proxy_verifier.Session.Errata.{Errata, Rv, diag, is_ok, is_ok-append_front}
use proxy_verifier.Session.Run.{Run, returned, blocked, unfinished, aborted, out_of_bounds}
use proxy_verifier.Session.Socket.{Session}
use proxy_verifier.Transaction.Running.{
  Txn, Setting, Ended, then_run, read_response, after_headers, run_transaction,
}
use proxy_verifier.Transaction.Sending.{write_message}
use proxy_verifier.Transaction.Response.{Passed, PassedIf, then_run-PassedIf, response-HeaderReadIf}
use proxy_verifier.Transaction.Passing.{after_headers-PassedIf}

module _ (e : Setting) (txn : Txn) where
  -- What a transaction that ended has done, if it has no error.
  pub record Replayed (s s' : Session) : Type 0 where
    pub length_sent : Option ℕ
    pub notes_sent : Errata
    pub sent : Session
    pub written :
        write_message e.chunk_ops e.generated e.ops e.fuel txn.req s
        ≡ returned ((length_sent, notes_sent), sent)
    pub written_ok : is_ok notes_sent ≡ true
    pub passed : Passed e txn sent s'

  abbrev pub ReplayedIf : Session → Run Ended → Type 0
  ReplayedIf s (returned (errata, s')) = is_ok errata ≡ true → Replayed s s'
  ReplayedIf s blocked = Unit
  ReplayedIf s unfinished = Unit
  ReplayedIf s aborted = Unit
  ReplayedIf s out_of_bounds = Unit

  -- A transaction that comes back without an error has sent its request without an error, and has
  -- then, by calls of `read` from the session behind that, filled an empty buffer up to the end of a
  -- header, which has no bytes if the session was closed with nothing read, and which was parsed whole
  -- and without an error; if its status is 100, the header of the
  -- response is the next one, read into an empty buffer in the same way and parsed without an error.
  -- The status of the response is not a violation, `verify_headers` accepts its fields, and its body
  -- was drained without an error from that buffer and session to the session that comes back.
  pub run_transaction_lem : (s : Session) → ReplayedIf s (run_transaction e txn s)
  unfolding run_transaction
  run_transaction_lem s =
      by_write (write_message e.chunk_ops e.generated e.ops e.fuel txn.req s) refl
    where
      passed_on :
          (m : Option ℕ) (n : Errata) (s1 : Session) (run : Run Ended)
          → write_message e.chunk_ops e.generated e.ops e.fuel txn.req s ≡ returned ((m, n), s1)
          → is_ok n ≡ true
          → PassedIf e txn s1 run
          → ReplayedIf s run
      passed_on m n s1 (returned (errata, s')) written fine t = λ ok. record {
        length_sent = m;
        notes_sent = n;
        sent = s1;
        written = written;
        written_ok = fine;
        passed = t ok;
      }
      passed_on m n s1 blocked written fine t = tt
      passed_on m n s1 unfinished written fine t = tt
      passed_on m n s1 aborted written fine t = tt
      passed_on m n s1 out_of_bounds written fine t = tt

      by_test :
          (m : Option ℕ) (n : Errata) (s1 : Session) (b : Bool)
          → write_message e.chunk_ops e.generated e.ops e.fuel txn.req s ≡ returned ((m, n), s1)
          → is_ok (n ++ (diag ∷ [])) ≡ b
          → ReplayedIf s (
              if b
              then then_run
                  (read_response e s1)
                  (after_headers e txn (n ++ (diag ∷ []) ++ (diag ∷ [])))
              else returned (n ++ (diag ∷ []), s1))
      by_test m n s1 true written fine =
          passed_on m n s1 _ written (is_ok-append_front n (diag ∷ []) fine) (
            then_run-PassedIf e txn s1 (read_response e s1) _ (λ r run.
              after_headers-PassedIf e txn s1 (n ++ (diag ∷ []) ++ (diag ∷ [])) r
                (response-HeaderReadIf e txn s1 s1 r run)))
      by_test m n s1 false written bad = λ ok. ground (arith, bad, ok)

      by_write :
          (run : Run (Rv (Option ℕ) × Session))
          → write_message e.chunk_ops e.generated e.ops e.fuel txn.req s ≡ run
          → ReplayedIf s (
              then_run run (λ ((m, n), s1).
                let noted = n ++ (diag ∷ []) in
                if is_ok noted
                then then_run (read_response e s1) (after_headers e txn (noted ++ (diag ∷ [])))
                else returned (noted, s1)))
      by_write (returned ((m, n), s1)) written =
          by_test m n s1 (is_ok (n ++ (diag ∷ []))) written refl
      by_write blocked written = tt
      by_write unfinished written = tt
      by_write aborted written = tt
      by_write out_of_bounds written = tt
