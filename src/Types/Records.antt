-- ===== src/Types/Records.antt =====
-- src/core/types.ts: the records that a store keeps. Times are the milliseconds that the ISO
-- strings denote; an optional field is an `Option`, and so is a field of a review that earlier
-- versions of corrobo did not write.
use corrobo.Base.{ℕ, String, Option, List}
use corrobo.Value.{Value}

pub data EvidenceState : Type 0 where
  applied not_applied conflicted pending unknown : EvidenceState

pub data RecoveryDisposition : Type 0 where
  complete retry replan review investigate : RecoveryDisposition

pub data OperationStatus : Type 0 where
  awaiting_review opened closed : OperationStatus

pub record OperationIdentity : Type 0 where
  pub id : String
  pub operation_type : String

-- A template literal is the list of its pieces.
pub data Piece : Type 0 where
  words : String → Piece
  count : ℕ → Piece
  time : ℕ → Piece

pub record ReasonCode : Type 0 where
  pub code : String
  pub summary : List Piece
  pub metadata : Option Value

-- `ok: true` with the evidence, or `ok: false` with the error's message and the thrown value.
pub data TransportOutcome : Type 0 where
  responded : Value → TransportOutcome
  transport_error : (message : String) (raw : Option Value) → TransportOutcome

pub data Verdict : Type 0 where
  approved rejected : Verdict

pub record RecordedReview : Type 0 where
  pub decision : Verdict
  pub reviewer : Option String
  pub decided_at : ℕ
  pub expires_at : Option ℕ
  pub note : Option String
  pub intent_fingerprint : String
  pub recorded_at : ℕ
  pub review_token : Option String
  pub attempt_count : Option ℕ

pub record ReviewEpisode : Type 0 where
  pub token : String
  pub generation : ℕ
  pub opened_at : ℕ
  pub superseded_decision : Option RecordedReview

pub data CheckOutcome : Type 0 where
  proceed requires_review reject failed : CheckOutcome

pub record PreExecuteCheck : Type 0 where
  pub outcome : CheckOutcome
  pub reason : ReasonCode
  pub approval : Option RecordedReview
  pub attempt_number : ℕ
  pub checked_at : ℕ

pub record BlockingCheck : Type 0 where
  pub check : PreExecuteCheck
  pub open check use *
  pub record_version : ℕ

-- A reserved attempt, also the input of `reserveAttempt` with its time of writing.
pub record ReservedAttempt : Type 0 where
  pub attempt_number : ℕ
  pub started_at : ℕ
  pub updated_at : ℕ
  pub check : Option PreExecuteCheck
  pub max_in_flight_ms : Option ℕ

pub record ResolvedAttempt : Type 0 where
  pub attempt_number : ℕ
  pub started_at : ℕ
  pub updated_at : ℕ
  pub transport : TransportOutcome
  pub observations : List Value
  pub observed_effect : Option Value
  pub evidence_state : EvidenceState
  pub evidence_reason : ReasonCode
  pub disposition : Option RecoveryDisposition
  pub disposition_reason : ReasonCode
  pub retry_not_before : Option ℕ
  pub check : Option PreExecuteCheck
  pub max_in_flight_ms : Option ℕ

pub data AttemptRecord : Type 0 where
  reserved : ReservedAttempt → AttemptRecord
  resolved : ResolvedAttempt → AttemptRecord

pub record ReservedAttemptInput : Type 0 where
  pub attempt_number : ℕ
  pub started_at : ℕ
  pub check : Option PreExecuteCheck
  pub max_in_flight_ms : Option ℕ

pub record OperationRecord : Type 0 where
  pub identity : OperationIdentity
  pub intent : Value
  pub status : OperationStatus
  pub review_reason : Option ReasonCode
  pub attempts : List AttemptRecord
  pub blocked_by : Option BlockingCheck
  pub review : Option RecordedReview
  pub review_episode : Option ReviewEpisode
  pub created_at : ℕ
  pub updated_at : ℕ
  pub version : ℕ

-- EffectResult: what a call reports.
pub record EffectResult : Type 0 where
  pub identity : OperationIdentity
  pub status : OperationStatus
  pub evidence_state : Option EvidenceState
  pub disposition : Option RecoveryDisposition
  pub evidence_reason : Option ReasonCode
  pub disposition_reason : ReasonCode
  pub observation : Option Value
  pub attempts : List AttemptRecord
  pub retry_not_before : Option ℕ
  pub review : Option RecordedReview
  pub review_token : Option String
