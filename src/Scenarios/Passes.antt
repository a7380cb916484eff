-- ===== src/Scenarios/Passes.antt =====
-- Passes and reviews at concrete inputs, and the theorems on them where their hypotheses hold.
use corrobo.Base.{◌≡◌, refl, none, some}
use corrobo.Types.{complete, opened, closed, plain_id}
use corrobo.Runtime.Effect.{run_effect}
use corrobo.Base.{length, ◌≤◌, arith}
use corrobo.Runtime.Effect.{resume}
use corrobo.Runtime.Quiet.{executions}
use corrobo.Runtime.Quiet.Once.{AtMostOneMore}
use corrobo.Runtime.Quiet.Passing.{run_effect_executes_once}
use corrobo.Runtime.Quiet.Observing.{resume_executes_nothing}
use corrobo.Refinement.Promises.{run_effect_bounded, closed_for_good}
use corrobo.Types.{approved, rejected}
use corrobo.Runtime.Review.{is_blank}
use corrobo.Memory.Laws.{memory_laws}
use corrobo.Memory.Map.{lookup}
use corrobo.Runtime.Decision.{review_effect}
use corrobo.Runtime.Quiet.Reviewing.{other_calls, review_effect_leaves_calls}
use corrobo.Protocol.{Steps}
use corrobo.Refinement.Clock.{IsReading}
use corrobo.Refinement.Effects.{run_effect_refines}
use corrobo.Refinement.Reviews.{review_effect_refines}
use corrobo.Base.{true}
use corrobo.Fault.{ok}
use corrobo.Runtime.Entry.{prepare_intent, is_valid_contract, resolve_identity}
use corrobo.Memory.{try_acquire_lock, is_locked}
use corrobo.Memory.Freed.{run_effect_frees_lock}
use corrobo.Scenarios.Setup.{
  copies, host, start, contract, refund, lost, brief, refusing, pending_contract, completing,
  asking, after, laws, stored, alone, named_start, named_after, decision, token, request, the,
  attempts_of, reviewed,
}

-- The response is lost, but the effect is found.
lost_response_completes :
    brief (run_effect host (contract lost (λ n. "APPLIED")) refund start).0
    ≡ (closed, some complete, none)
unfolding run_effect host
lost_response_completes = refl

two_passes_attempt_twice : attempts_of (stored (after refusing (after refusing start))) ≡ 2
unfolding run_effect host laws memory_laws lookup
two_passes_attempt_twice = refl

-- The third pass is the last that the policy allows: the fourth makes no attempt.
four_passes_attempt_thrice :
    attempts_of (stored (after refusing (after refusing (after refusing (after refusing start)))))
    ≡ 3
unfolding run_effect host laws memory_laws lookup
four_passes_attempt_thrice = refl

run_effect_refines_example :
    Steps refusing
      (IsReading host)
      "refund-1"
      (stored (after refusing start))
      (stored (after refusing (after refusing start)))
run_effect_refines_example =
    run_effect_refines host laws refusing (alone refusing) refund (after refusing start)
      (named_after refusing start (named_start refusing)) "refund-1"

approval_opens : brief (reviewed approved (after asking start)).0 ≡ (opened, none, none)
unfolding run_effect review_effect host is_blank
approval_opens = refl

second_decision_refused :
    brief (reviewed rejected (reviewed approved (after asking start)).1).0 ≡ (closed, none, none)
unfolding run_effect review_effect host is_blank
second_decision_refused = refl

review_effect_refines_example :
    Steps asking
      (IsReading host)
      "refund-1"
      (stored (after asking start))
      (stored (reviewed approved (after asking start)).1)
review_effect_refines_example =
    review_effect_refines host laws asking (alone asking) (plain_id "refund-1")
      (decision token approved) (after asking start) (named_after asking start (named_start asking))
      "refund-1"

review_effect_leaves_calls_example :
    other_calls (reviewed approved (after asking start)).1.calls
    ≡ other_calls (after asking start).calls
review_effect_leaves_calls_example =
    review_effect_leaves_calls host asking (plain_id "refund-1") (decision token approved)
      (after asking start)

run_effect_bounded_example :
    length (the (stored (after refusing (after refusing start)))).attempts ≤ 3
unfolding run_effect host laws memory_laws lookup
run_effect_bounded_example =
    run_effect_bounded host laws refusing (alone refusing) refund (after refusing start) 3
      (named_after refusing start (named_start refusing)) refl (ground arith) "refund-1"
      (the (stored (after refusing (after refusing start))))
      (run_effect_refines host laws refusing (alone refusing) refund start (named_start refusing)
        "refund-1")
      refl

closed_for_good_example :
    (stored (after completing (after completing start))
      ≡ some (the (stored (after completing start))))
    × (laws.view
          (review_effect host completing
            (plain_id "refund-1")
            (decision token approved)
            (after completing start)).1.state
          "refund-1"
        ≡ some (the (stored (after completing start))))
unfolding run_effect host laws memory_laws lookup
closed_for_good_example =
    closed_for_good host laws completing (alone completing) refund (plain_id "refund-1")
      (decision token approved) (after completing start)
      (named_after completing start (named_start completing)) "refund-1"
      (the (stored (after completing start))) refl refl

resume_executes_nothing_example :
    executions
      (resume host pending_contract
        (the (stored (after pending_contract start)))
        request
        (after pending_contract start)).1.calls
    ≡ executions (after pending_contract start).calls
unfolding run_effect host laws memory_laws lookup
resume_executes_nothing_example =
    resume_executes_nothing host pending_contract (the (stored (after pending_contract start)))
      request (after pending_contract start) refl

run_effect_executes_once_example :
    AtMostOneMore
      (executions (after refusing start).calls)
      (executions (after refusing (after refusing start)).calls)
run_effect_executes_once_example =
    run_effect_executes_once host refusing refund (after refusing start)

run_effect_frees_lock_example :
    (try_acquire_lock "refund-1" (after refusing start).state).0 ≡ ok true
unfolding host prepare_intent try_acquire_lock is_locked is_valid_contract resolve_identity
run_effect_frees_lock_example =
    run_effect_frees_lock copies host refl refusing refund
      (record { id = "refund-1"; operation_type = "payments/refund" })
      (record { stored = refund.intent; fingerprint = some "{\"amountCents\":5000}" }) start refl
      refl refl refl
