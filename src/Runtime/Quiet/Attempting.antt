-- ===== src/Runtime/Quiet/Attempting.antt =====
-- src/core/runtime.ts: how often `performAttempt` and `checkThenAttempt` execute.
use corrobo.Base.{ℕ, inr, refl, Option, none, some, []}
use corrobo.Value.{Value}
use corrobo.Types.{
  ReasonCode, PreExecuteCheck, ReservedAttemptInput, OperationRecord, EffectContract, ExecuteInput,
  RevalidateInput, HookResult, CheckOutcome, proceed, requires_review, reject, failed,
}
use corrobo.Store.{OperationUpdate}
use corrobo.Runtime.Monad.{Host, revalidating, await_hook}
use corrobo.Runtime.Frame.{pure_does, bind_does}
use corrobo.Runtime.Hooks.{Verification, safe_execute, run_revalidate}
use corrobo.Runtime.Attempt.{AttemptBase, started, perform_attempt}
use corrobo.Runtime.Check.{
  ResolvedRequest, Standing, approval_of, unrecorded_approval, no_approval, approval_problem,
  verify, verify_again, block, blocking, act_on, check_then, check_then_attempt, needs_no_check,
  standing_of, attempt_base,
}
use corrobo.Runtime.Quiet.{
  executions, leaving, on_store_leaves, safety_now_leaves, lift_leaves, ask_fingerprint_leaves,
  await_hook_leaves,
}
use corrobo.Runtime.Quiet.Once.{Once, Quiet, Quiet-Once, Once-before, Once-after, Once-either}
use corrobo.Runtime.Quiet.Observing.{observe_and_resolve-Quiet, open_review_episode-Quiet}

module _ {S : Type 0} (h : Host S) (c : EffectContract) where
  safe_execute-Once : (i : ExecuteInput) → Once (safe_execute h c i)
  unfolding safe_execute await_hook
  safe_execute-Once i =
      Once-before (record { once = λ w. inr (i, refl) })
        (λ answer. pure_does (leaving executions) _ (λ w q. tt))

  started-Quiet : (check : Option PreExecuteCheck) → Quiet (started h c check)
  unfolding started
  started-Quiet none = safety_now_leaves h executions
  started-Quiet (some check) = pure_does (leaving executions) _ (λ w q. tt)

  perform_attempt-Once :
      (base : AttemptBase) (intent : Value) (check : Option PreExecuteCheck)
      → Once (perform_attempt h c base intent check)
  unfolding perform_attempt
  perform_attempt-Once base intent check = Once-after (started-Quiet check) (λ started_at.
      let reserved : ReservedAttemptInput = record {
        attempt_number = base.attempt_number;
        started_at = started_at;
        check = check;
        max_in_flight_ms = c.max_in_flight_ms;
      } in
      Once-after
        (on_store_leaves h executions
          (λ n. h.store.reserve_attempt n base.identity.id reserved base.version))
        (λ reserved_record. Once-before (safe_execute-Once _) (λ transport.
          bind_does (leaving executions)
            (observe_and_resolve-Quiet h c base.identity intent reserved transport []
              reserved_record.version)
            (λ updated. pure_does (leaving executions) _ (λ w q. tt)))))

  approval_problem-Quiet :
      (r : OperationRecord) (st : Standing) (now : ℕ) → Quiet (approval_problem h c r st now)
  unfolding approval_problem
  approval_problem-Quiet r unrecorded_approval now = pure_does (leaving executions) _ (λ w q. tt)
  approval_problem-Quiet r no_approval now = pure_does (leaving executions) _ (λ w q. tt)
  approval_problem-Quiet r (approval_of a) now =
      bind_does (leaving executions) (ask_fingerprint_leaves h executions c r.intent (λ j cs. refl))
        (λ f. lift_leaves h executions _)

  run_revalidate-Quiet :
      (hook : ℕ → RevalidateInput → HookResult) (i : RevalidateInput)
      → Quiet (run_revalidate h c hook i)
  unfolding run_revalidate
  run_revalidate-Quiet hook i =
      bind_does (leaving executions)
        (await_hook_leaves h executions (revalidating i) (λ n. hook n i) (λ cs. refl))
        (λ answer. pure_does (leaving executions) _ (λ w q. tt))

  verify-Quiet :
      (r : OperationRecord) (request : ResolvedRequest) (st : Standing)
      (problem : Option ReasonCode) (hook : Option (ℕ → RevalidateInput → HookResult))
      → Quiet (verify h c r request st problem hook)
  unfolding verify
  verify-Quiet r request st (some problem) hook = pure_does (leaving executions) _ (λ w q. tt)
  verify-Quiet r request st none none = pure_does (leaving executions) _ (λ w q. tt)
  verify-Quiet r request st none (some hook) = run_revalidate-Quiet hook _

  verify_again-Quiet :
      (o : CheckOutcome) (r : OperationRecord) (st : Standing) (now : ℕ) (v : Verification)
      → Quiet (verify_again h c o r st now v)
  unfolding verify_again
  verify_again-Quiet proceed r st now v =
      bind_does (leaving executions) (approval_problem-Quiet r st now)
        (λ after. pure_does (leaving executions) _ (λ w q. tt))
  verify_again-Quiet requires_review r st now v = pure_does (leaving executions) _ (λ w q. tt)
  verify_again-Quiet reject r st now v = pure_does (leaving executions) _ (λ w q. tt)
  verify_again-Quiet failed r st now v = pure_does (leaving executions) _ (λ w q. tt)

  block-Quiet : (r : OperationRecord) (u : OperationUpdate) → Quiet (block h c r u)
  unfolding block
  block-Quiet r u =
      bind_does (leaving executions)
        (on_store_leaves h executions (λ n. h.store.update_operation n r.identity.id u r.version))
        (λ updated. pure_does (leaving executions) _ (λ w q. tt))

  pub act_on_review-Quiet :
      (r : OperationRecord) (request : ResolvedRequest) (st : Standing) (v : Verification) (now : ℕ)
      → Quiet (act_on h c requires_review r request st v now)
  unfolding act_on
  act_on_review-Quiet r request st v now =
      bind_does (leaving executions) (ask_fingerprint_leaves h executions c r.intent (λ j cs. refl))
        (λ f.
          bind_does (leaving executions) (open_review_episode-Quiet h c _ _ _ _)
            (λ episode. block-Quiet r _))

  act_on-Once :
      (o : CheckOutcome) (r : OperationRecord) (request : ResolvedRequest) (st : Standing)
      (v : Verification) (now : ℕ)
      → Once (act_on h c o r request st v now)
  unfolding act_on
  act_on-Once proceed r request st v now =
      perform_attempt-Once (attempt_base r) request.intent (some (blocking h c r st v now).check)
  act_on-Once requires_review r request st v now =
      Quiet-Once (act_on_review-Quiet r request st v now)
  act_on-Once reject r request st v now = Quiet-Once (block-Quiet r _)
  act_on-Once failed r request st v now = Quiet-Once (block-Quiet r _)

  check_then-Once :
      (r : OperationRecord) (request : ResolvedRequest) (st : Standing)
      → Once (check_then h c r request st)
  unfolding check_then
  check_then-Once r request st = Once-after (safety_now_leaves h executions) (λ now.
      Once-after (approval_problem-Quiet r st now) (λ before.
        Once-after (verify-Quiet r request st before c.revalidate) (λ v.
          Once-after (safety_now_leaves h executions) (λ checked_at.
            Once-after (verify_again-Quiet v.outcome r st checked_at v)
              (λ v'. act_on-Once v'.outcome r request st v' checked_at)))))

  pub check_then_attempt-Once :
      (r : OperationRecord) (request : ResolvedRequest) → Once (check_then_attempt h c r request)
  unfolding check_then_attempt
  check_then_attempt-Once r request =
      Once-either (needs_no_check h c (standing_of r))
        (perform_attempt-Once (attempt_base r) request.intent none)
        (check_then-Once r request (standing_of r))
