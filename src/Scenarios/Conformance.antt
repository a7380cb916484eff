-- ===== src/Scenarios/Conformance.antt =====
-- The harness of src/testing/conformance.ts at concrete inputs.
use corrobo.Base.{ℕ, ◌≤◌, ◌≡◌, ◌↔◌, refl, String, true, false, none, some, List, [], ◌∷◌}
use corrobo.Types.{ReservedAttemptInput, ReservedAttempt}
use corrobo.Conformance.{HarnessStore, after_reserve}
use corrobo.Conformance.Verdict.{
  pass, fail, skipped, judged, status_of, passed, NoneFails, SomeRun, judged_pass, passed_iff,
}
use corrobo.Scenarios.Setup.{blank}

abbrev attempt : ReservedAttemptInput
attempt = record { attempt_number = 1; started_at = 5; check = none; max_in_flight_ms = none }

abbrev reservation : ReservedAttempt
reservation = record {
  attempt_number = 1;
  started_at = 5;
  updated_at = 5;
  check = none;
  max_in_flight_ms = none;
}

-- The process goes down once the attempt is reserved.
abbrev begin : HarnessStore
begin = record {
  memory = record { records = ("refund-1", blank) ∷ []; locked = [] };
  time = 1000;
  crash_on = some after_reserve;
}

abbrev one_effect : ℕ
one_effect = 1

abbrev no_failures : List String
no_failures = []

judged_pass_example : (no_failures ≡ []) × (one_effect ≤ 1) × (true ≡ true → one_effect ≡ 1)
unfolding judged status_of
judged_pass_example = judged_pass (λ s. false) no_failures one_effect true refl

two_effects_fail : status_of (judged (λ s. false) [] 2 true) ≡ fail
unfolding judged status_of
two_effects_fail = refl

passed_iff_example :
    (passed (pass ∷ skipped ∷ []) ≡ true)
    ↔ NoneFails (pass ∷ skipped ∷ []) × SomeRun (pass ∷ skipped ∷ [])
passed_iff_example = passed_iff (pass ∷ skipped ∷ [])
