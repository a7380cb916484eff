-- ===== src/Store/Changes.antt =====
-- src/core/store.ts: the interface, and what each of its writes does to a record, as its comments
-- say and src/stores/memory.ts carries out.
use corrobo.Base.{ℕ, ◌+◌, String, Bool, Option, none, some, [], set_last, push}
use corrobo.Value.{Value}
use corrobo.Types.{
  OperationIdentity, OperationStatus, ReasonCode, ReviewEpisode, RecordedReview, BlockingCheck,
  AttemptRecord, reserved, ReservedAttemptInput, OperationRecord,
}
use corrobo.Fault.{Outcome}

pub record NewOperationInput : Type 0 where
  pub identity : OperationIdentity
  pub intent : Value
  pub status : OperationStatus
  pub review_reason : Option ReasonCode
  pub review_episode : Option ReviewEpisode

-- An absent field is left as it is, `null` clears it.
pub data Patch (A : Type 0) : Type 0 where
  keep : Patch A
  clear : Patch A
  put : A → Patch A

pub record OperationUpdate : Type 0 where
  pub status : Option OperationStatus
  pub review_reason : Patch ReasonCode
  pub blocked_by : Patch BlockingCheck
  pub review : Patch RecordedReview
  pub review_episode : Patch ReviewEpisode

-- The state of a store is a type `S`; a write is told the process clock's reading.
pub record CoordinatedStore (S : Type 0) : Type 0 where
  pub get_operation : String → S → Outcome (Option OperationRecord) × S
  pub create_operation : ℕ → NewOperationInput → S → Outcome OperationRecord × S
  pub reserve_attempt : ℕ → String → ReservedAttemptInput → ℕ → S → Outcome OperationRecord × S
  pub append_attempt :
      ℕ → String → AttemptRecord → OperationStatus → ℕ → S → Outcome OperationRecord × S
  pub update_latest_attempt :
      ℕ → String → AttemptRecord → OperationStatus → ℕ → S → Outcome OperationRecord × S
  pub update_operation : ℕ → String → OperationUpdate → ℕ → S → Outcome OperationRecord × S
  pub set_status : ℕ → String → OperationStatus → ℕ → S → Outcome OperationRecord × S
  -- the shared clock, if the store has one
  pub now : Option (ℕ → S → Outcome ℕ × S)

-- `tryAcquireLock` answers whether the lock is held now; `release` is the lock's own.
pub record EffectStore (S : Type 0) : Type 0 where
  pub coordinated : CoordinatedStore S
  pub open coordinated use *
  pub try_acquire_lock : String → S → Outcome Bool × S
  pub release : String → S → S

unfoldable pub created : ℕ → NewOperationInput → OperationRecord
created now i = record {
  identity = i.identity;
  intent = i.intent;
  status = i.status;
  review_reason = i.review_reason;
  attempts = [];
  blocked_by = none;
  review = none;
  review_episode = i.review_episode;
  created_at = now;
  updated_at = now;
  version = 0;
}

unfoldable pub reserve_change : ReservedAttemptInput → OperationRecord → OperationRecord
reserve_change a r = record r {
  attempts = push r.attempts (
      reserved (record {
        attempt_number = a.attempt_number;
        started_at = a.started_at;
        updated_at = a.started_at;
        check = a.check;
        max_in_flight_ms = a.max_in_flight_ms;
      }));
}

unfoldable pub append_change : AttemptRecord → OperationStatus → OperationRecord → OperationRecord
append_change a st r = record r { attempts = push r.attempts a; status = st }

unfoldable pub latest_change : AttemptRecord → OperationStatus → OperationRecord → OperationRecord
latest_change a st r = record r { attempts = set_last r.attempts a; status = st }

abbrev pub patched : {A : Type 0} → Patch A → Option A → Option A
patched keep o = o
patched clear o = none
patched (put a) o = some a

abbrev pub status_of : Option OperationStatus → OperationStatus → OperationStatus
status_of none st = st
status_of (some st) _ = st

unfoldable pub operation_change : OperationUpdate → OperationRecord → OperationRecord
operation_change u r = record r {
  status = status_of u.status r.status;
  review_reason = patched u.review_reason r.review_reason;
  blocked_by = patched u.blocked_by r.blocked_by;
  review = patched u.review r.review;
  review_episode = patched u.review_episode r.review_episode;
}

unfoldable pub status_change : OperationStatus → OperationRecord → OperationRecord
status_change st r = record r { status = st }

-- Every write dates the record and counts its version up.
unfoldable pub stamped : ℕ → OperationRecord → OperationRecord
stamped now r = record r { updated_at = now; version = r.version + 1 }
