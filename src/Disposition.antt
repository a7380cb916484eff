-- ===== src/Disposition.antt =====
-- src/core/disposition.ts: from evidence to what is safe to do next. `Table` is about the mapping as
-- a whole.
pub mod Table
use corrobo.Base.{
  ℕ, ◌+◌, String, Bool, true, false, ◌&&◌, Option, none, some, List, [], ◌∷◌, leb, ltb,
  if◌then◌else◌,
}
use corrobo.Text.{to_iso_string}
use corrobo.Value.{Value, Number, Fields}
use corrobo.Types.{
  EvidenceState, applied, not_applied, conflicted, pending, unknown, RecoveryDisposition, complete,
  retry, replan, investigate, ReasonCode, Piece, words, RetryPolicy, MaxAttempts, limit, unlimited,
}

pub record SettlementInput : Type 0 where
  pub transport_ok : Bool
  pub attempt_started_at : ℕ
  pub now : ℕ
  pub max_in_flight_ms : Option ℕ

pub record DecideDispositionInput : Type 0 where
  pub evidence_state : EvidenceState
  pub attempt_number : ℕ
  pub retry_policy : RetryPolicy
  pub settlement : SettlementInput

pub record DecideDispositionResult : Type 0 where
  pub disposition : Option RecoveryDisposition
  pub reason : ReasonCode
  pub retry_not_before : Option ℕ

-- `reason(code, summary)`
plain_reason : String → String → ReasonCode
plain_reason c s = record { code = c; summary = words s ∷ []; metadata = none }

pub effect_confirmed : ReasonCode
unfolding plain_reason
effect_confirmed =
    plain_reason "EFFECT_CONFIRMED" "Authoritative observation confirms the intended effect."

pub state_conflict : ReasonCode
unfolding plain_reason
state_conflict =
    plain_reason "STATE_CONFLICT"
      "Authoritative state diverged from what the plan assumed; a new plan is required, not a retry of this operation."

pub evidence_insufficient : ReasonCode
unfolding plain_reason
evidence_insufficient =
    plain_reason "EVIDENCE_INSUFFICIENT"
      "Available evidence cannot establish whether the effect occurred. Retrying blindly would risk a duplicate."

pub awaiting_convergence : ReasonCode
unfolding plain_reason
awaiting_convergence =
    plain_reason "AWAITING_CONVERGENCE"
      "The effect is acknowledged but not yet confirmed. Re-observe later; do not retry or treat as failure."

-- `Number.isFinite(maxAttempts) ? maxAttempts : "unlimited"`
max_attempts_value : MaxAttempts → Value
max_attempts_value (limit n) = Value.number (Number.whole n)
max_attempts_value unlimited = Value.text "unlimited"

pub retry_not_safe_or_exhausted : ℕ → RetryPolicy → ReasonCode
unfolding max_attempts_value
retry_not_safe_or_exhausted n p = record {
  code = "RETRY_NOT_SAFE_OR_EXHAUSTED";
  summary =
      words
        "The effect did not occur, but retry is exhausted or not permitted for this operation type."
      ∷ [];
  metadata = some (
      Value.object (
        Fields.field "attemptNumber" (Value.number (Number.whole n)) (
          Fields.field "maxAttempts" (max_attempts_value p.max_attempts)
            (Fields.field "retryable" (Value.boolean p.retry_on_not_applied) Fields.end))));
}

pub safe_retry : ReasonCode
unfolding plain_reason
safe_retry =
    plain_reason "SAFE_RETRY"
      "Evidence shows the effect did not occur and this operation type is safe to retry."

pub in_flight_not_ruled_out : ReasonCode
unfolding plain_reason
in_flight_not_ruled_out =
    plain_reason "IN_FLIGHT_NOT_RULED_OUT"
      "The effect was not observed, but execute() failed at the transport level and this contract declares no maxInFlightMs, so a late landing of that request cannot be ruled out. Retrying could duplicate it."

pub safe_retry_after_settlement : ℕ → ℕ → ReasonCode
safe_retry_after_settlement at window = record {
  code = "SAFE_RETRY_AFTER_SETTLEMENT";
  summary =
      words
        "The effect was not observed, but the failed request could still land until retryNotBefore. Call again after that time; the effect is re-observed before any new attempt."
      ∷ [];
  metadata = some (
      Value.object (
        Fields.field "retryNotBefore" (Value.text (to_iso_string at))
          (Fields.field "maxInFlightMs" (Value.number (Number.whole window)) Fields.end)));
}

decided : Option RecoveryDisposition → ReasonCode → DecideDispositionResult
decided d r = record { disposition = d; reason = r; retry_not_before = none }

-- A failed request: its effect may still land until its window has passed.
settle : SettlementInput → Option ℕ → DecideDispositionResult
unfolding decided
settle s none = decided (some investigate) in_flight_not_ruled_out
settle s (some window) =
    let settle_at = s.attempt_started_at + window in
    if leb settle_at s.now then decided (some retry) safe_retry else record {
      disposition = some retry;
      reason = safe_retry_after_settlement settle_at window;
      retry_not_before = some settle_at;
    }

decide_retry : SettlementInput → DecideDispositionResult
unfolding settle decided
decide_retry s =
    if s.transport_ok then decided (some retry) safe_retry else settle s s.max_in_flight_ms

-- `attemptNumber < retryPolicy.maxAttempts`
abbrev pub has_attempts_remaining : ℕ → MaxAttempts → Bool
has_attempts_remaining n (limit m) = ltb n m
has_attempts_remaining n unlimited = true

decide_not_applied : ℕ → RetryPolicy → SettlementInput → DecideDispositionResult
unfolding decided decide_retry
decide_not_applied n p s =
    if p.retry_on_not_applied && has_attempts_remaining n p.max_attempts
    then decide_retry s
    else decided (some investigate) (retry_not_safe_or_exhausted n p)

-- The `switch` of `decideDisposition`.
decide_by : EvidenceState → ℕ → RetryPolicy → SettlementInput → DecideDispositionResult
unfolding decided decide_not_applied
decide_by applied n p s = decided (some complete) effect_confirmed
decide_by conflicted n p s = decided (some replan) state_conflict
decide_by unknown n p s = decided (some investigate) evidence_insufficient
decide_by pending n p s = decided none awaiting_convergence
decide_by not_applied n p s = decide_not_applied n p s

unfoldable pub decide_disposition : DecideDispositionInput → DecideDispositionResult
unfolding decide_by
decide_disposition i = decide_by i.evidence_state i.attempt_number i.retry_policy i.settlement
