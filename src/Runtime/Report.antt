-- ===== src/Runtime/Report.antt =====
-- src/core/runtime.ts: what a call reports of a record.
use corrobo.Base.{
  ℕ, String, Bool, true, false, Option, none, some, List, [], ◌∷◌, ◌++◌, ◌==◌, if◌then◌else◌,
  get_or, get_last?,
}
use corrobo.Types.{
  EvidenceState, pending, RecoveryDisposition, retry, replan, review, OperationStatus,
  awaiting_review, opened, closed, OperationIdentity, ReasonCode, Piece, words, approved, rejected,
  RecordedReview, reject, failed, BlockingCheck, ResolvedAttempt, AttemptRecord, reserved, resolved,
  OperationRecord, EffectResult,
}
use corrobo.Runtime.Review.{current_review_token}

default_review_reason : ReasonCode
default_review_reason = record {
  code = "POLICY_REVIEW_REQUIRED";
  summary = words "This operation requires human authorization before it will be attempted." ∷ [];
  metadata = none;
}

pub default_reason : Option ReasonCode → ReasonCode
unfolding default_review_reason
default_reason r = get_or r default_review_reason

operation_in_progress : ReasonCode
operation_in_progress = record {
  code = "OPERATION_IN_PROGRESS";
  summary =
      words
        "Another caller is currently executing this operation. Call run() again shortly for a result."
      ∷ [];
  metadata = none;
}

-- `resultForInProgress`
unfoldable pub result_for_in_progress : OperationIdentity → EffectResult
unfolding operation_in_progress
result_for_in_progress identity = record {
  identity = identity;
  status = opened;
  evidence_state = none;
  disposition = none;
  evidence_reason = none;
  disposition_reason = operation_in_progress;
  observation = none;
  attempts = [];
  retry_not_before = none;
  review = none;
  review_token = none;
}

by_reviewer : Option String → List Piece
by_reviewer none = []
by_reviewer (some r) = words " by " ∷ words r ∷ []

pub approved_reason : RecordedReview → ReasonCode
unfolding by_reviewer
approved_reason r = record {
  code = "REVIEW_APPROVED";
  summary = words "Approved in review" ∷ by_reviewer r.reviewer ++ words "." ∷ [];
  metadata = none;
}

pub approved_not_attempted : RecordedReview → ReasonCode
unfolding by_reviewer
approved_not_attempted r = record {
  code = "REVIEW_APPROVED";
  summary =
      words "Approved in review" ∷ by_reviewer r.reviewer
      ++ words
          "; not attempted yet since. The next runEffect() call checks the approval and makes the attempt."
        ∷ [];
  metadata = none;
}

abbrev reviewer_of : Option RecordedReview → Option String
reviewer_of none = none
reviewer_of (some r) = r.reviewer

pub rejected_in_review : Option RecordedReview → ReasonCode
unfolding by_reviewer
rejected_in_review r = record {
  code = "POLICY_REVIEW_REJECTED";
  summary =
      words "This operation was reviewed and rejected" ∷ by_reviewer (reviewer_of r)
      ++ words "; nothing more will be attempted." ∷ [];
  metadata = none;
}

no_attempt_recorded : ReasonCode
no_attempt_recorded = record {
  code = "OPERATION_IN_PROGRESS";
  summary = words "No attempt has been recorded yet. Call run() again shortly for a result." ∷ [];
  metadata = none;
}

attempt_in_progress : ReasonCode
attempt_in_progress = record {
  code = "ATTEMPT_IN_PROGRESS";
  summary =
      words
        "An attempt has been reserved but not yet resolved. Call run() again shortly for a result."
      ∷ [];
  metadata = none;
}

-- The latest attempt, if it is resolved.
abbrev pub resolved_of : Option AttemptRecord → Option ResolvedAttempt
resolved_of (some (resolved a)) = some a
resolved_of _ = none

abbrev report_before :
    OperationRecord
    → Option RecoveryDisposition
    → ReasonCode
    → Option ResolvedAttempt
    → EffectResult
report_before r d reason none = record {
  identity = r.identity;
  status = r.status;
  evidence_state = none;
  disposition = d;
  evidence_reason = none;
  disposition_reason = reason;
  observation = none;
  attempts = r.attempts;
  retry_not_before = none;
  review = r.review;
  review_token = current_review_token r;
}
report_before r d reason (some a) = record {
  identity = r.identity;
  status = r.status;
  evidence_state = some a.evidence_state;
  disposition = d;
  evidence_reason = some a.evidence_reason;
  disposition_reason = reason;
  observation = get_last? a.observations;
  attempts = r.attempts;
  retry_not_before = none;
  review = r.review;
  review_token = current_review_token r;
}

-- `resultBeforeAttempt`
unfoldable pub result_before_attempt :
    OperationRecord → Option RecoveryDisposition → ReasonCode → EffectResult
result_before_attempt r d reason = report_before r d reason (resolved_of (get_last? r.attempts))

-- `currentBlock`: the check that stopped the next attempt, if it still describes the record.
abbrev block_at : ℕ → Option BlockingCheck → Option BlockingCheck
block_at v none = none
block_at v (some b) = if b.record_version == v then some b else none

unfoldable pub current_block : OperationRecord → Option BlockingCheck
current_block r = block_at r.version r.blocked_by

-- `statusAfter`
unfoldable pub status_after : EvidenceState → Option RecoveryDisposition → OperationStatus
status_after e (some retry) = opened
status_after pending _ = opened
status_after _ _ = closed

result_of_reserved : OperationRecord → EffectResult
unfolding attempt_in_progress
result_of_reserved r = record {
  identity = r.identity;
  status = r.status;
  evidence_state = none;
  disposition = none;
  evidence_reason = none;
  disposition_reason = attempt_in_progress;
  observation = none;
  attempts = r.attempts;
  retry_not_before = none;
  review = r.review;
  review_token = current_review_token r;
}

result_of_resolved : OperationRecord → ResolvedAttempt → EffectResult
result_of_resolved r a = record {
  identity = r.identity;
  status = r.status;
  evidence_state = some a.evidence_state;
  disposition = a.disposition;
  evidence_reason = some a.evidence_reason;
  disposition_reason = a.disposition_reason;
  observation = get_last? a.observations;
  attempts = r.attempts;
  retry_not_before = a.retry_not_before;
  review = r.review;
  review_token = current_review_token r;
}

result_unattempted : OperationRecord → Option RecordedReview → EffectResult
unfolding result_before_attempt no_attempt_recorded
result_unattempted r (some rev) =
    result_before_attempt r none
      (elim rev.decision [ approved ↦ approved_not_attempted rev | rejected ↦ no_attempt_recorded ])
result_unattempted r none = result_before_attempt r none no_attempt_recorded

-- `latestLeftItOpen`, and the two reports of a record whose latest attempt does not explain that it
-- is closed.
latest_left_it_open : Option AttemptRecord → Bool
unfolding status_after
latest_left_it_open (some (resolved a)) = elim (status_after a.evidence_state a.disposition) [
  | opened ↦ true
  | _ ↦ false
]
latest_left_it_open _ = false

result_of_latest : OperationRecord → Option AttemptRecord → EffectResult
unfolding result_unattempted result_of_reserved result_of_resolved
result_of_latest r none = result_unattempted r r.review
result_of_latest r (some (reserved a)) = result_of_reserved r
result_of_latest r (some (resolved a)) = result_of_resolved r a

result_of_closed : OperationRecord → Option AttemptRecord → EffectResult
unfolding result_before_attempt latest_left_it_open result_of_latest
result_of_closed r none = result_before_attempt r (some review) (rejected_in_review r.review)
result_of_closed r latest =
    if latest_left_it_open latest
    then result_before_attempt r (some review) (rejected_in_review r.review)
    else result_of_latest r latest

result_of_attempts : OperationRecord → OperationStatus → EffectResult
unfolding result_of_closed result_of_latest
result_of_attempts r closed = result_of_closed r (get_last? r.attempts)
result_of_attempts r _ = result_of_latest r (get_last? r.attempts)

result_of_block : OperationRecord → Option BlockingCheck → EffectResult
unfolding result_before_attempt result_of_attempts
result_of_block r none = result_of_attempts r r.status
result_of_block r (some b) = elim b.check.outcome [
  | reject ↦ result_before_attempt r (some replan) b.check.reason
  | failed ↦ result_before_attempt r none b.check.reason
  | _ ↦ result_of_attempts r r.status
]

abbrev is_rejected : Option RecordedReview → Bool
is_rejected none = false
is_rejected (some r) = elim r.decision [ rejected ↦ true | approved ↦ false ]

result_of_status : OperationRecord → OperationStatus → EffectResult
unfolding result_before_attempt result_of_block current_block
result_of_status r awaiting_review =
    result_before_attempt r (some review) (default_reason r.review_reason)
result_of_status r closed =
    if is_rejected r.review
    then result_before_attempt r (some review) (rejected_in_review r.review)
    else result_of_block r (current_block r)
result_of_status r opened = result_of_block r (current_block r)

-- `resultFromRecord`
unfoldable pub result_from_record : OperationRecord → EffectResult
unfolding result_of_status
result_from_record r = result_of_status r r.status
