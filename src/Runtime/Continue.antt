-- ===== src/Runtime/Continue.antt =====
-- src/core/runtime.ts: `continueOpen`, a later pass over an open operation.
use corrobo.Base.{
  ℕ, Bool, true, false, ◌&&◌, not, Option, none, some, ltb, if◌then◌else◌, get_last?, length, ◌==◌,
}
use corrobo.Types.{
  OperationStatus, opened, pending, retry, RecordedReview, approved, rejected, AttemptRecord,
  reserved, resolved, ResolvedAttempt, OperationRecord, EffectContract, EffectResult,
}
use corrobo.Runtime.Monad.{Host, Action, pure, ◌>>=◌, safety_now}
use corrobo.Runtime.Report.{result_from_record}
use corrobo.Runtime.Attempt.{transport_ok, re_observe, recover_reserved_attempt}
use corrobo.Runtime.Check.{ResolvedRequest, check_then_attempt}

-- Approved after the latest attempt; without a count on record, it counts as recent.
abbrev counted_at : Option ℕ → ℕ → Bool
counted_at none n = true
counted_at (some k) n = k == n

abbrev approved_at : Option RecordedReview → ℕ → Bool
approved_at none n = false
approved_at (some r) n = elim r.decision [
  | approved ↦ counted_at r.attempt_count n
  | rejected ↦ false
]

unfoldable pub approved_since_latest : OperationRecord → Bool
approved_since_latest r = approved_at r.review (length r.attempts)

-- After a settlement check: the operation is open, and its latest attempt asks for a retry at once.
abbrev retries_at_once : OperationStatus → Option AttemptRecord → Bool
retries_at_once opened (some (resolved a)) = elim a.disposition [
  | some retry ↦ elim a.retry_not_before [ none ↦ true | some _ ↦ false ]
  | _ ↦ false
]
retries_at_once _ _ = false

unfoldable pub is_settled : OperationRecord → Bool
is_settled r = retries_at_once r.status (get_last? r.attempts)

-- What `continueOpen` does next with the latest attempt.
pub data Next : Type 0 where
  attempt_now : Next
  recover : Next
  look_again : Next
  settle_first : Next
  nothing : Next

unfoldable pub next_for : OperationRecord → ResolvedAttempt → Next
unfolding approved_since_latest
next_for r a = elim a.evidence_state [
  | pending ↦ look_again
  | _ ↦ elim a.disposition [
    | some retry ↦
        if transport_ok a.transport && not (approved_since_latest r)
        then attempt_now
        else settle_first
    | _ ↦ nothing
  ]
]

module _ {S : Type 0} (h : Host S) (c : EffectContract) where
  -- The part of `continueOpen` for a retry that has to be settled first.
  unfoldable pub settle_then_attempt :
      OperationRecord → ResolvedRequest → ResolvedAttempt → Action S EffectResult
  unfolding re_observe check_then_attempt result_from_record is_settled
  settle_then_attempt r request a = do
    settled ← re_observe h c r request.intent a
    if is_settled settled
        then check_then_attempt h c settled request
        else pure (result_from_record settled)

  unfoldable pub wait_or_settle :
      OperationRecord → ResolvedRequest → ResolvedAttempt → Option ℕ → Action S EffectResult
  unfolding settle_then_attempt safety_now result_from_record
  wait_or_settle r request a none = settle_then_attempt r request a
  wait_or_settle r request a (some t) = do
    now ← safety_now h
    if ltb now t then pure (result_from_record r) else settle_then_attempt r request a

  unfoldable pub take_next :
      OperationRecord → ResolvedRequest → ResolvedAttempt → Next → Action S EffectResult
  unfolding check_then_attempt wait_or_settle re_observe result_from_record
  take_next r request a look_again = do
    updated ← re_observe h c r request.intent a
    pure (result_from_record updated)
  take_next r request a attempt_now = check_then_attempt h c r request
  take_next r request a settle_first = wait_or_settle r request a a.retry_not_before
  take_next r request a _ = pure (result_from_record r)

  unfoldable pub continue_from :
      OperationRecord → ResolvedRequest → Option AttemptRecord → Action S EffectResult
  unfolding check_then_attempt recover_reserved_attempt take_next next_for
  continue_from r request none = check_then_attempt h c r request
  continue_from r request (some (reserved a)) = recover_reserved_attempt h c r request.intent a
  continue_from r request (some (resolved a)) = take_next r request a (next_for r a)

  -- `continueOpen`
  unfoldable pub continue_open : OperationRecord → ResolvedRequest → Action S EffectResult
  unfolding continue_from
  continue_open r request = continue_from r request (get_last? r.attempts)
