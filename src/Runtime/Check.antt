-- ===== src/Runtime/Check.antt =====
-- src/core/runtime.ts: `checkThenAttempt`, the only way to a new attempt. Approval and revalidate()
-- are checked first; a check that says no is recorded, and nothing is reserved.
use corrobo.Base.{ℕ, ◌+◌, Bool, false, not, Option, none, some, if◌then◌else◌, length, is_some}
use corrobo.Value.{Value}
use corrobo.Types.{
  OperationIdentity, awaiting_review, closed, ReasonCode, RecordedReview, CheckOutcome, proceed,
  requires_review, reject, failed, BlockingCheck, RevalidateInput, HookResult, OperationRecord,
  EffectContract, EffectResult,
}
use corrobo.Runtime.Fingerprints.{ask_fingerprint}
use corrobo.Store.{keep, put, OperationUpdate}
use corrobo.Runtime.Monad.{Host, Action, pure, lift, ◌>>=◌, on_store, safety_now}
use corrobo.Runtime.Hooks.{Verification, run_revalidate}
use corrobo.Runtime.Review.{
  check_approval, approval_not_recorded, attributed_approval, open_review_episode, review_patch,
}
use corrobo.Runtime.Report.{approved_reason, result_from_record}
use corrobo.Runtime.Attempt.{AttemptBase, perform_attempt}

-- An EffectRequest after identity shorthand is resolved.
pub record ResolvedRequest : Type 0 where
  pub identity : OperationIdentity
  pub intent : Value
  pub context : Value

abbrev pub attempt_base : OperationRecord → AttemptBase
attempt_base r = record {
  identity = r.identity;
  version = r.version;
  attempt_number = length r.attempts + 1;
}

-- What stands before an attempt: an approval to check, one that was never recorded with its
-- reviewer, or nothing.
pub data Standing : Type 0 where
  approval_of : RecordedReview → Standing
  unrecorded_approval : Standing
  no_approval : Standing

standing_from : Option RecordedReview → Option ReasonCode → Standing
standing_from (some a) _ = approval_of a
standing_from none (some _) = unrecorded_approval
standing_from none none = no_approval

unfoldable pub standing_of : OperationRecord → Standing
unfolding standing_from attributed_approval
standing_of r = standing_from (attributed_approval r) r.review_reason

abbrev pub recorded_approval : Standing → Option RecordedReview
recorded_approval (approval_of a) = some a
recorded_approval _ = none

module _ {S : Type 0} (h : Host S) (c : EffectContract) where
  -- `approvalProblem`
  unfoldable pub approval_problem : OperationRecord → Standing → ℕ → Action S (Option ReasonCode)
  unfolding ask_fingerprint check_approval
  approval_problem r unrecorded_approval now = pure (some approval_not_recorded)
  approval_problem r no_approval now = pure none
  approval_problem r (approval_of a) now = do
    fingerprint ← ask_fingerprint c r.intent
    lift (check_approval c.max_approval_age_ms fingerprint a now)

  -- Without revalidate() only an approval comes here.
  pub allowed_by : Standing → Verification
  allowed_by (approval_of a) = record { outcome = proceed; reason = approved_reason a }
  allowed_by _ = record { outcome = requires_review; reason = approval_not_recorded }

  -- The first look: corrobo's own checks, and then revalidate().
  unfoldable pub verify :
      OperationRecord
      → ResolvedRequest
      → Standing
      → Option ReasonCode
      → Option (ℕ → RevalidateInput → HookResult)
      → Action S Verification
  unfolding allowed_by run_revalidate
  verify r request st (some problem) hook =
      pure (record { outcome = requires_review; reason = problem })
  verify r request st none none = pure (allowed_by st)
  verify r request st none (some hook) = run_revalidate h c hook (record {
    intent = request.intent;
    identity = r.identity;
    attempt_number = length r.attempts + 1;
    approval = recorded_approval st;
    operation = r;
    context = request.context;
  })

  pub overruled : Verification → Option ReasonCode → Verification
  overruled v none = v
  overruled v (some problem) = record { outcome = requires_review; reason = problem }

  -- The second look, at the reading that the attempt then starts at.
  unfoldable pub verify_again :
      CheckOutcome → OperationRecord → Standing → ℕ → Verification → Action S Verification
  unfolding approval_problem overruled
  verify_again proceed r st now v = approval_problem r st now >>= λ after. pure (overruled v after)
  verify_again _ r st now v = pure v

  pub blocking : OperationRecord → Standing → Verification → ℕ → BlockingCheck
  blocking r st v now = record {
    check = record {
      outcome = v.outcome;
      reason = v.reason;
      approval = recorded_approval st;
      attempt_number = length r.attempts + 1;
      checked_at = now;
    };
    record_version = r.version + 1;
  }

  unfoldable pub block : OperationRecord → OperationUpdate → Action S EffectResult
  unfolding on_store result_from_record
  block r u = do
    updated ← on_store h λ n. h.store.update_operation n r.identity.id u r.version
    pure (result_from_record updated)

  -- What follows from the check.
  unfoldable pub act_on :
      CheckOutcome
      → OperationRecord
      → ResolvedRequest
      → Standing
      → Verification
      → ℕ
      → Action S EffectResult
  unfolding perform_attempt block blocking open_review_episode review_patch ask_fingerprint
  act_on proceed r request st v now =
      perform_attempt h c (attempt_base r) request.intent (some (blocking r st v now).check)
  act_on requires_review r request st v now = do
    fingerprint ← ask_fingerprint c r.intent
    episode ← open_review_episode h r.identity fingerprint r.review_episode r.review
    block r (record {
      status = some awaiting_review;
      review_reason = put v.reason;
      blocked_by = put (blocking r st v now);
      review = review_patch episode;
      review_episode = put episode;
    })
  act_on reject r request st v now = block r (record {
    status = some closed;
    review_reason = keep;
    blocked_by = put (blocking r st v now);
    review = keep;
    review_episode = keep;
  })
  act_on failed r request st v now = block r (record {
    status = none;
    review_reason = keep;
    blocked_by = put (blocking r st v now);
    review = keep;
    review_episode = keep;
  })

  unfoldable pub check_then : OperationRecord → ResolvedRequest → Standing → Action S EffectResult
  unfolding approval_problem verify verify_again act_on safety_now
  check_then r request st = do
    now ← safety_now h
    before ← approval_problem r st now
    v ← verify r request st before c.revalidate
    checked_at ← safety_now h
    v' ← verify_again v.outcome r st checked_at v
    act_on v'.outcome r request st v' checked_at

  -- Nothing to check: no revalidate() and no approval.
  abbrev pub needs_no_check : Standing → Bool
  needs_no_check no_approval = not (is_some c.revalidate)
  needs_no_check _ = false

  -- `checkThenAttempt`
  unfoldable pub check_then_attempt : OperationRecord → ResolvedRequest → Action S EffectResult
  unfolding perform_attempt check_then standing_of
  check_then_attempt r request =
      let st = standing_of r in
      if needs_no_check st
      then perform_attempt h c (attempt_base r) request.intent none
      else check_then r request st
