-- ===== src/Store/Kept.antt =====
-- src/core/store.ts: what a store keeps of the data that it is given. A store that writes JSON does not
-- keep all of an attempt's data; what the runtime decides by is kept.
use corrobo.Base.{ℕ, ◌≡◌, refl, Option, none, some}
use corrobo.Value.{Value}
use corrobo.Types.{
  ReasonCode, CheckOutcome, PreExecuteCheck, BlockingCheck, RecordedReview, ReviewEpisode,
  AttemptRecord, resolved, ResolvedAttempt, ReservedAttemptInput,
}
use corrobo.Store.Changes.{NewOperationInput, Patch, keep, clear, put, OperationUpdate}
use corrobo.Runtime.Attempt.{transport_ok, base_of_resolved}

-- The outcome of a check, the attempt that it was made for, and its time.
abbrev pub outline_check : Option PreExecuteCheck → Option (CheckOutcome × ℕ × ℕ)
outline_check none = none
outline_check (some k) = some (k.outcome, k.attempt_number, k.checked_at)

-- An attempt's number, start and window, and its check in outline.
abbrev pub outline : ReservedAttemptInput → ℕ × ℕ × Option ℕ × Option (CheckOutcome × ℕ × ℕ)
outline i = (i.attempt_number, i.started_at, i.max_in_flight_ms, outline_check i.check)

-- What is kept of a resolved attempt: all that is decided by.
pub record KeepsCourse (a b : ResolvedAttempt) : Type 0 where
  pub same_outline : outline (base_of_resolved b) ≡ outline (base_of_resolved a)
  pub same_transport : transport_ok b.transport ≡ transport_ok a.transport
  pub same_evidence : b.evidence_state ≡ a.evidence_state
  pub same_disposition : b.disposition ≡ a.disposition
  pub same_wait : b.retry_not_before ≡ a.retry_not_before

pub record Kept : Type 0 where
  pub intent : Value → Value
  pub reason : ReasonCode → ReasonCode
  pub block : BlockingCheck → BlockingCheck
  pub review : RecordedReview → RecordedReview
  pub episode : ReviewEpisode → ReviewEpisode
  pub reservation : ReservedAttemptInput → ReservedAttemptInput
  pub resolution : ResolvedAttempt → ResolvedAttempt
  pub attempt : AttemptRecord → AttemptRecord
  pub same_reservation : (i : ReservedAttemptInput) → outline (reservation i) ≡ outline i
  pub same_course : (a : ResolvedAttempt) → KeepsCourse a (resolution a)
  pub attempt_resolved : (a : ResolvedAttempt) → attempt (resolved a) ≡ resolved (resolution a)
  pub same_token : (v : RecordedReview) → (review v).review_token ≡ v.review_token
  pub same_decision : (v : RecordedReview) → (review v).decision ≡ v.decision

abbrev pub kept_option : {A : Type 0} → (A → A) → Option A → Option A
kept_option f none = none
kept_option f (some a) = some (f a)

abbrev pub kept_patch : {A : Type 0} → (A → A) → Patch A → Patch A
kept_patch f keep = keep
kept_patch f clear = clear
kept_patch f (put a) = put (f a)

abbrev pub kept_creation : Kept → NewOperationInput → NewOperationInput
kept_creation k i = record {
  identity = i.identity;
  intent = k.intent i.intent;
  status = i.status;
  review_reason = kept_option k.reason i.review_reason;
  review_episode = kept_option k.episode i.review_episode;
}

abbrev pub kept_update : Kept → OperationUpdate → OperationUpdate
kept_update k u = record {
  status = u.status;
  review_reason = kept_patch k.reason u.review_reason;
  blocked_by = kept_patch k.block u.blocked_by;
  review = kept_patch k.review u.review;
  review_episode = kept_patch k.episode u.review_episode;
}

-- A store that keeps everything.
abbrev pub everything : Kept
everything = record {
  intent = λ v. v;
  reason = λ r. r;
  block = λ b. b;
  review = λ v. v;
  episode = λ e. e;
  reservation = λ i. i;
  resolution = λ a. a;
  attempt = λ a. a;
  same_reservation = λ i. refl;
  same_course = λ a. record {
    same_outline = refl;
    same_transport = refl;
    same_evidence = refl;
    same_disposition = refl;
    same_wait = refl;
  };
  attempt_resolved = λ a. refl;
  same_token = λ v. refl;
  same_decision = λ v. refl;
}

pub kept_patch_same : {A : Type 0} (p : Patch A) → kept_patch (λ (a : A). a) p ≡ p
kept_patch_same keep = refl
kept_patch_same clear = refl
kept_patch_same (put a) = refl

pub kept_option_same : {A : Type 0} (o : Option A) → kept_option (λ (a : A). a) o ≡ o
kept_option_same none = refl
kept_option_same (some a) = refl

pub kept_update-everything : (u : OperationUpdate) → kept_update everything u ≡ u
kept_update-everything u = cc (
  kept_patch_same u.review_reason,
  kept_patch_same u.blocked_by,
  kept_patch_same u.review,
  kept_patch_same u.review_episode,
)

pub kept_creation-everything : (i : NewOperationInput) → kept_creation everything i ≡ i
kept_creation-everything i =
    cc (kept_option_same i.review_reason, kept_option_same i.review_episode)
