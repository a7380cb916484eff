-- ===== src/Types/Contract.antt =====
-- src/core/types.ts: what an integrator supplies. A hook is a function of its input and of the
-- number of the call in the run, since it may answer differently each time.
use corrobo.Base.{ℕ, String, Bool, Option}
use corrobo.Value.{Value}
use corrobo.Types.Records.{
  OperationIdentity, TransportOutcome, OperationRecord, RecordedReview, Verdict,
}

pub data MaxAttempts : Type 0 where
  limit : ℕ → MaxAttempts
  unlimited : MaxAttempts

pub record RetryPolicy : Type 0 where
  pub max_attempts : MaxAttempts
  pub retry_on_not_applied : Bool

-- A hook throws a value or returns one, of any shape.
pub data HookResult : Type 0 where
  throws : Value → HookResult
  returns : Value → HookResult

pub record AuthorizeInput : Type 0 where
  pub intent : Value
  pub identity : OperationIdentity
  pub context : Value

pub record RevalidateInput : Type 0 where
  pub intent : Value
  pub identity : OperationIdentity
  pub attempt_number : ℕ
  pub approval : Option RecordedReview
  pub operation : OperationRecord
  pub context : Value

pub record ExecuteInput : Type 0 where
  pub intent : Value
  pub identity : OperationIdentity
  pub attempt_number : ℕ

pub record ObserveInput : Type 0 where
  pub intent : Value
  pub identity : OperationIdentity
  pub transport : TransportOutcome
  pub attempt_started_at : ℕ

pub record ReconcileInput : Type 0 where
  pub intent : Value
  pub transport : TransportOutcome
  pub observation : Value

-- fingerprintIntent() is deterministic: a function of the intent, which may throw.
pub data FingerprintResult : Type 0 where
  fingerprint_throws : Value → FingerprintResult
  fingerprint_is : String → FingerprintResult

pub record EffectContract : Type 0 where
  pub operation_type : String
  pub retry_policy : RetryPolicy
  pub authorize : Option (ℕ → AuthorizeInput → HookResult)
  pub revalidate : Option (ℕ → RevalidateInput → HookResult)
  pub execute : ℕ → ExecuteInput → HookResult
  pub observe : ℕ → ObserveInput → HookResult
  pub reconcile : ℕ → ReconcileInput → HookResult
  pub fingerprint_intent : Option (Value → FingerprintResult)
  pub max_in_flight_ms : Option ℕ
  pub max_approval_age_ms : Option ℕ

-- A string is shorthand for the identity with the contract's operation type.
pub data RequestIdentity : Type 0 where
  plain_id : String → RequestIdentity
  full_identity : OperationIdentity → RequestIdentity

pub record EffectRequest : Type 0 where
  pub identity : RequestIdentity
  pub intent : Value
  pub context : Value

pub record ReviewDecision : Type 0 where
  pub decision : Verdict
  pub review_token : String
  pub reviewer : String
  pub decided_at : Option ℕ
  pub expires_at : Option ℕ
  pub intent_fingerprint : Option String
  pub note : Option String
