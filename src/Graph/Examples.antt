-- ===== src/Graph/Examples.antt =====
-- Loops of corrections.
use specrails_core.Prelude.{String, true, false, none, some, [], ◌∷◌, ◌≡◌, refl, arith}
use specrails_core.Graph.Convergence.{VerifyOutcome, verify_visits, verify_visit, divergence}
use specrails_core.Graph.Loops.{IsFailure, returning_stops, third_repeat_stops}

abbrev failing : String → String → VerifyOutcome
failing candidate signature = record {
  at = "noon";
  candidate_hash = candidate;
  plan_hash = "plan";
  passed = false;
  signature = some signature;
  summary = some "npm test exited 1";
}

abbrev passing : String → VerifyOutcome
passing candidate = record {
  at = "noon";
  candidate_hash = candidate;
  plan_hash = "plan";
  passed = true;
  signature = none;
  summary = none;
}

failing-IsFailure : (candidate : String) → IsFailure (failing candidate "lint")
failing-IsFailure candidate = record { failed = refl; signed = refl }

returning_stops_example :
    verify_visits []
      (failing "a" "tests" ∷ failing "b" "types" ∷ passing "c" ∷ failing "a" "lint" ∷ [])
    ≡ none
returning_stops_example =
    returning_stops [] (failing "a" "tests") (failing "b" "types" ∷ passing "c" ∷ [])
      (failing "a" "lint") (failing-IsFailure "a") refl (omega arith)

third_repeat_stops_example :
    verify_visits
      (passing "z" ∷ [])
      (failing "a" "lint" ∷ failing "b" "lint" ∷ failing "c" "lint" ∷ [])
    ≡ none
third_repeat_stops_example =
    third_repeat_stops (passing "z" ∷ []) (failing "a" "lint") (failing "b" "lint")
      (failing "c" "lint") (failing-IsFailure "c") refl refl

-- Two failures that differ do not end a run.
two_continue :
    verify_visits [] (failing "a" "lint" ∷ failing "b" "types" ∷ passing "c" ∷ [])
    ≡ some (failing "a" "lint" ∷ failing "b" "types" ∷ passing "c" ∷ [])
unfolding verify_visits verify_visit divergence
two_continue = refl
