-- ===== src/Runtime/Decision.antt =====
-- src/core/runtime.ts: `reviewEffect`, which records a reviewer's decision and does nothing else.
pub mod Tokens
use corrobo.Base.{
  ℕ, String, Bool, true, false, ◌&&◌, not, Option, none, some, ltb, leb, if◌then◌else◌, str_eq,
  get_or, length,
}
use corrobo.Types.{
  OperationStatus, awaiting_review, opened, closed, OperationIdentity, Verdict, approved, rejected,
  RecordedReview, ReviewEpisode, ReviewDecision, OperationRecord, EffectContract, EffectResult,
  RequestIdentity,
}
use corrobo.Runtime.Fingerprints.{ask_fingerprint}
use corrobo.Fault.{
  Outcome, ok, thrown, Fault, type_error, invalid_contract, invalid_decision, no_operation,
  wrong_operation_type, store_conflict, operation_busy, review_not_accepted, ReviewRefusal,
  not_awaiting_review, stale_review_token, decided_before_review_opened, intent_mismatch,
  approval_already_expired,
}
use corrobo.Store.{OperationUpdate, keep, put}
use corrobo.Runtime.Monad.{
  Host, Action, pure, raise, lift, guard, catching, ◌>>=◌, ◌>>◌, on_store, safety_now,
}
use corrobo.Runtime.Review.{Expiry, approval_expiry, open_review, is_blank}
use corrobo.Runtime.Report.{approved_not_attempted, result_before_attempt, result_from_record}
use corrobo.Runtime.Entry.{is_valid_contract, resolve_identity}
use corrobo.Runtime.Effect.{releasing}

-- The checks of `parseReviewDecision` that the types of the model do not rule out.
abbrev expires_after : Option ℕ → Option ℕ → Bool
expires_after none decided = true
expires_after (some e) none = true
expires_after (some e) (some d) = ltb d e

abbrev may_expire : Verdict → Option ℕ → Bool
may_expire rejected (some _) = false
may_expire _ _ = true

unfoldable pub is_valid_decision : ReviewDecision → Bool
is_valid_decision d =
    not (str_eq d.review_token "")
    && not (is_blank d.reviewer)
    && may_expire d.decision d.expires_at
    && expires_after d.expires_at d.decided_at

unfoldable pub parse_review_decision : ReviewDecision → Outcome ReviewDecision
unfolding is_valid_decision
parse_review_decision d = if is_valid_decision d then ok d else thrown (type_error invalid_decision)

abbrev pub matches : Option String → String → Bool
matches none f = true
matches (some g) f = str_eq g f

abbrev pub predates : Option ℕ → ℕ → Bool
predates none opened_at = false
predates (some t) opened_at = ltb t opened_at

abbrev expired_at : Outcome (Option Expiry) → ℕ → Outcome Bool
expired_at (thrown f) now = thrown f
expired_at (ok none) now = ok false
expired_at (ok (some e)) now = ok (leb e.at now)

-- An approval that has expired by the time it is recorded; a rejection does not expire.
unfoldable pub already_expired : Option ℕ → ReviewDecision → ℕ → Outcome Bool
unfolding approval_expiry
already_expired max_age d now = elim d.decision [
  | approved ↦ expired_at (approval_expiry max_age d.expires_at (get_or d.decided_at now) now) now
  | rejected ↦ ok false
]

unfoldable pub recorded : OperationRecord → ReviewDecision → String → ℕ → RecordedReview
recorded r d fingerprint now = record {
  decision = d.decision;
  reviewer = some d.reviewer;
  decided_at = get_or d.decided_at now;
  expires_at = d.expires_at;
  note = d.note;
  intent_fingerprint = fingerprint;
  recorded_at = now;
  review_token = some d.review_token;
  attempt_count = some (length r.attempts);
}

abbrev pub status_of_verdict : Verdict → OperationStatus
status_of_verdict approved = opened
status_of_verdict rejected = closed

-- What recording a decision changes.
abbrev pub review_update : RecordedReview → OperationUpdate
review_update review = record {
  status = some (status_of_verdict review.decision);
  review_reason = keep;
  blocked_by = keep;
  review = put review;
  review_episode = keep;
}

abbrev report_of : OperationRecord → RecordedReview → EffectResult
report_of r review = elim review.decision [
  | approved ↦ result_before_attempt r none (approved_not_attempted review)
  | rejected ↦ result_from_record r
]

-- Which refusal the open review gives a decision, if any.
abbrev pub refusal_of_review : Option ReviewEpisode → ReviewDecision → Option ReviewRefusal
refusal_of_review none d = some stale_review_token
refusal_of_review (some e) d =
    if str_eq d.review_token e.token
    then (if predates d.decided_at e.opened_at then some decided_before_review_opened else none)
    else some stale_review_token

abbrev pub refusal_at :
    OperationStatus → Option ReviewEpisode → ReviewDecision → Option ReviewRefusal
refusal_at awaiting_review e d = refusal_of_review e d
refusal_at _ e d = some not_awaiting_review

unfoldable pub refusal_of : OperationRecord → ReviewDecision → Option ReviewRefusal
unfolding open_review
refusal_of r d = refusal_at r.status (open_review r) d

module _ {S : Type 0} (h : Host S) (c : EffectContract) where
  unfoldable pub refuse : {A : Type 0} → OperationRecord → String → ReviewRefusal → Action S A
  unfolding result_from_record
  refuse r id code = raise (review_not_accepted id code (result_from_record r))

  unfoldable pub accept :
      {A : Type 0} → OperationRecord → String → Option ReviewRefusal → Action S A → Action S A
  unfolding refuse
  accept r id none m = m
  accept r id (some code) m = refuse r id code

  -- `recordReview`
  unfoldable pub record_review : String → OperationRecord → ReviewDecision → Action S RecordedReview
  unfolding ask_fingerprint refuse safety_now already_expired recorded
  record_review id r d = do
    fingerprint ← ask_fingerprint c r.intent
    if matches d.intent_fingerprint fingerprint
        then (safety_now h >>= λ now.
            lift (already_expired c.max_approval_age_ms d now) >>= λ expired.
            if expired
            then refuse r id approval_already_expired
            else pure (recorded r d fingerprint now))
        else refuse r id intent_mismatch

  unfoldable pub store_review :
      OperationIdentity → OperationRecord → RecordedReview → Action S EffectResult
  unfolding on_store result_before_attempt result_from_record
  store_review identity r review = do
    updated ←
        on_store h λ n. h.store.update_operation n identity.id (review_update review) r.version
    pure (report_of updated review)

  unfoldable pub review_found :
      OperationIdentity → ReviewDecision → Option OperationRecord → Action S EffectResult
  unfolding refusal_of accept record_review store_review
  review_found identity d none = raise (no_operation identity.id)
  review_found identity d (some r) =
      if str_eq r.identity.operation_type c.operation_type
      then accept r identity.id (refusal_of r d)
          (record_review identity.id r d >>= store_review identity r)
      else raise (wrong_operation_type identity.id)

  unfoldable pub review_coordinated : OperationIdentity → ReviewDecision → Action S EffectResult
  unfolding on_store review_found
  review_coordinated identity d =
      on_store h (λ n. h.store.get_operation identity.id) >>= review_found identity d

  unfoldable pub busy_on_conflict : String → Fault → Action S EffectResult
  busy_on_conflict id (store_conflict _ _ _) = raise (operation_busy id)
  busy_on_conflict id f = raise f

  unfoldable pub review_locked : OperationIdentity → ReviewDecision → Bool → Action S EffectResult
  unfolding releasing review_coordinated busy_on_conflict
  review_locked identity d false = raise (operation_busy identity.id)
  review_locked identity d true =
      releasing h c identity.id
        (catching (review_coordinated identity d) (busy_on_conflict identity.id))

  -- `reviewEffect`
  unfoldable pub review_effect : RequestIdentity → ReviewDecision → Action S EffectResult
  unfolding is_valid_contract resolve_identity parse_review_decision on_store review_locked
  review_effect requested decision = do
    guard (is_valid_contract c) (type_error invalid_contract)
    identity ← lift (resolve_identity c requested)
    d ← lift (parse_review_decision decision)
    held ← on_store h (λ n. h.store.try_acquire_lock identity.id)
    review_locked identity d held
