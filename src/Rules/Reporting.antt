-- ===== src/Rules/Reporting.antt =====
-- The diagnostics of `test` against the values that it returns.
use proxy_verifier.Base.{Bytes, List, ◌≡◌, arith, if◌then◌else◌}
use proxy_verifier.Rules.Defs.{RuleCheck, absence, invert_result, invert_if_applicable}
use proxy_verifier.Rules.Evaluate.{test, test_values, report}
use proxy_verifier.Swoc.{TextOps}

module _ (ops : TextOps) where
  test_verdict :
      (r : RuleCheck) (name value : Bytes)
      → (test ops r name value).1.verdict
        ≡ (if (test ops r name value).0 then "Success" else "Violation")
  unfolding test report invert_result invert_if_applicable
  test_verdict (absence b d) name value = ground arith
  test_verdict _ name value = ground arith

  test_values_verdict :
      (r : RuleCheck) (name : Bytes) (values : List Bytes)
      → (test_values ops r name values).1.verdict
        ≡ (if (test_values ops r name values).0 then "Success" else "Violation")
  unfolding test_values report invert_result invert_if_applicable
  test_values_verdict (absence b d) name values = ground arith
  test_values_verdict _ name values = ground arith

  -- The message of a test says "Success" exactly when the test returns true, and else "Violation".
  pub verdict-test :
      (rule : RuleCheck) (name value : Bytes) (values : List Bytes)
      → ((test ops rule name value).1.verdict
          ≡ (if (test ops rule name value).0 then "Success" else "Violation"))
        × ((test_values ops rule name values).1.verdict
            ≡ (if (test_values ops rule name values).0 then "Success" else "Violation"))
  verdict-test rule name value values =
      (test_verdict rule name value, test_values_verdict rule name values)
