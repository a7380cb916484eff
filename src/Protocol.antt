-- ===== src/Protocol.antt =====
-- The steps that the record of an operation may take, whoever writes it (docs/v0.1-spec.md).
-- `History` is about what follows from the steps alone, the modules below Refinement about the steps
-- that src/core/runtime.ts takes.
pub mod History
use corrobo.Base.{
  ℕ, suc, String, ◌<◌, arith, inl, inr, refl, ◌≡◌, ◌≢◌, ◌⊎◌, true, Option, none, some, length,
  get_last?,
}
use corrobo.Types.{
  EvidenceState, pending, RecoveryDisposition, retry, opened, awaiting_review, PreExecuteCheck,
  AttemptRecord, reserved, resolved, ReservedAttempt, ResolvedAttempt, ReservedAttemptInput,
  RecordedReview, ReviewEpisode, OperationRecord, EffectContract,
}
use corrobo.Store.{
  NewOperationInput, OperationUpdate, Patch, put, created, reserve_change, latest_change,
  operation_change, stamped,
}
use corrobo.Store.Kept.{outline}
use corrobo.Runtime.Review.{open_review}
use corrobo.Runtime.Report.{status_after}
use corrobo.Runtime.Attempt.{decide, transport_ok, base_of_reserved, base_of_resolved}
use corrobo.Runtime.Decision.{review_update}

-- The latest attempt leaves room for another: there is none, or it asks for a retry whose request
-- was answered or need not be waited for.
abbrev pub AllowsAttempt : Option AttemptRecord → Type 0
AllowsAttempt none = Unit
AllowsAttempt (some (reserved _)) = ⊥
AllowsAttempt (some (resolved a)) =
    (a.disposition ≡ some retry) × ((transport_ok a.transport ≡ true) ⊎ (a.retry_not_before ≡ none))

-- The latest attempt may be resolved (again), as the attempt with this outline: it is only reserved, or
-- it is pending or to be retried.
abbrev pub AwaitsResolution : Option AttemptRecord → ReservedAttemptInput → Type 0
AwaitsResolution none base = ⊥
AwaitsResolution (some (reserved a)) base = outline base ≡ outline (base_of_reserved a)
AwaitsResolution (some (resolved a)) base =
    (outline base ≡ outline (base_of_resolved a))
    × ((a.evidence_state ≡ pending) ⊎ (a.disposition ≡ some retry))

-- The disposition of an attempt is what the contract decides from its evidence at a time that was read
-- from the clock.
abbrev pub IsDecided : EffectContract → (ℕ → Type 0) → ResolvedAttempt → Type 0
IsDecided c Reading a =
    (now : ℕ) × Reading now
    × (a.disposition ≡ (decide c a.evidence_state (base_of_resolved a) a.transport now).disposition)
    × (a.retry_not_before
        ≡ (decide c a.evidence_state (base_of_resolved a) a.transport now).retry_not_before)

-- The decision on record is kept or taken off.
abbrev pub RecordsNoDecision : Patch RecordedReview → Type 0
RecordsNoDecision (put _) = ⊥
RecordsNoDecision _ = Unit

-- One write to an operation; `id` is the key that the operation is stored under, and `Reading` tells the
-- times that the clock gives. A decision is recorded as the answer to the open review only.
pub data Step (c : EffectContract) (Reading : ℕ → Type 0) (id : String)
    : Option OperationRecord → Option OperationRecord → Type 0 where
  create :
      (now : ℕ) (i : NewOperationInput)
      → i.identity.id ≡ id
      → Step c Reading id none (some (created now i))
  reserve :
      (now : ℕ) (a : ReservedAttemptInput) (r : OperationRecord)
      → r.status ≡ opened
      → AllowsAttempt (get_last? r.attempts)
      → a.attempt_number ≡ suc (length r.attempts)
      → Step c Reading id (some r) (some (stamped now (reserve_change a r)))
  resolve :
      (now : ℕ) (a : ResolvedAttempt) (r : OperationRecord)
      → r.status ≡ opened
      → AwaitsResolution (get_last? r.attempts) (base_of_resolved a)
      → IsDecided c Reading a
      → Step c Reading id (some r) (
          some (
            stamped now
              (latest_change (resolved a) (status_after a.evidence_state a.disposition) r)))
  block :
      (now : ℕ) (u : OperationUpdate) (r : OperationRecord)
      → r.status ≡ opened
      → AllowsAttempt (get_last? r.attempts)
      → u.status ≢ some opened
      → RecordsNoDecision u.review
      → Step c Reading id (some r) (some (stamped now (operation_change u r)))
  renew :
      (now : ℕ) (u : OperationUpdate) (r : OperationRecord)
      → r.status ≡ awaiting_review
      → open_review r ≡ none
      → u.status ≡ none
      → RecordsNoDecision u.review
      → Step c Reading id (some r) (some (stamped now (operation_change u r)))
  answer :
      (now : ℕ) (review : RecordedReview) (e : ReviewEpisode) (r : OperationRecord)
      → r.status ≡ awaiting_review
      → open_review r ≡ some e
      → review.review_token ≡ some e.token
      → Step c Reading id (some r) (some (stamped now (operation_change (review_update review) r)))

-- Any number of writes.
pub data Steps (c : EffectContract) (Reading : ℕ → Type 0) (id : String)
    (o : Option OperationRecord) : Option OperationRecord → Type 0 where
  done : Steps c Reading id o o
  more :
      {o' o'' : Option OperationRecord}
      → Steps c Reading id o o'
      → Step c Reading id o' o''
      → Steps c Reading id o o''

pub Steps-trans :
    {c : EffectContract} {Reading : ℕ → Type 0} {id : String} {o o' o'' : Option OperationRecord}
    → Steps c Reading id o o'
    → Steps c Reading id o' o''
    → Steps c Reading id o o''
Steps-trans a done = a
Steps-trans a (more b s) = more (Steps-trans a b) s

-- A record that was read, and what has become of it since: the same, or a later version.
abbrev pub Evolved : OperationRecord → Option OperationRecord → Type 0
Evolved r none = ⊥
Evolved r (some r') = (r' ≡ r) ⊎ (r.version < r'.version)

Evolved-Step :
    {c : EffectContract} {Reading : ℕ → Type 0} {id : String} (r : OperationRecord)
    {o o' : Option OperationRecord}
    → Step c Reading id o o'
    → Evolved r o
    → Evolved r o'
unfolding created reserve_change latest_change operation_change stamped
Evolved-Step r (create now i q) h = absurd h
Evolved-Step r (reserve now a q s l n) h = ground arith
Evolved-Step r (resolve now a q s l n) h = ground arith
Evolved-Step r (block now a q s l n d) h = ground arith
Evolved-Step r (renew now a q s l n d) h = ground arith
Evolved-Step r (answer now a e q s l n) h = ground arith

pub Evolved-Steps :
    {c : EffectContract} {Reading : ℕ → Type 0} {id : String} (r : OperationRecord)
    {o o' : Option OperationRecord}
    → Steps c Reading id o o'
    → Evolved r o
    → Evolved r o'
Evolved-Steps r done h = h
Evolved-Steps r (more ss s) h = Evolved-Step r s (Evolved-Steps r ss h)

-- Every record carries the identity that it is stored under.
abbrev pub NamedBy : String → Option OperationRecord → Type 0
NamedBy id none = Unit
NamedBy id (some r) = r.identity.id ≡ id

NamedBy-Step :
    {c : EffectContract} {Reading : ℕ → Type 0} {id : String} {o o' : Option OperationRecord}
    → Step c Reading id o o'
    → NamedBy id o
    → NamedBy id o'
unfolding created reserve_change latest_change operation_change stamped
NamedBy-Step (create now i q) h = q
NamedBy-Step (reserve now a r s l n) h = h
NamedBy-Step (resolve now a r s l n) h = h
NamedBy-Step (block now a r s l n d) h = h
NamedBy-Step (renew now a r s l n d) h = h
NamedBy-Step (answer now a e r s l n) h = h

pub NamedBy-Steps :
    {c : EffectContract} {Reading : ℕ → Type 0} {id : String} {o o' : Option OperationRecord}
    → Steps c Reading id o o'
    → NamedBy id o
    → NamedBy id o'
NamedBy-Steps done h = h
NamedBy-Steps (more ss s) h = NamedBy-Step s (NamedBy-Steps ss h)

-- A decision that a step leaves on record was there before, or answers the review that was open.
pub recorded_decision_answers :
    {c : EffectContract} {Reading : ℕ → Type 0} {id : String} {o o' : Option OperationRecord}
    (r' : OperationRecord) (d : RecordedReview)
    → Step c Reading id o o'
    → o' ≡ some r'
    → r'.review ≡ some d
    → (r : OperationRecord) × (o ≡ some r)
      × ((r.review ≡ some d)
          ⊎ ((e : ReviewEpisode) × (open_review r ≡ some e) × (d.review_token ≡ some e.token)))
unfolding created reserve_change latest_change operation_change stamped
recorded_decision_answers r' d (create now i q) e f = absurd (ground arith)
recorded_decision_answers r' d (reserve now a r s l n) e f = (r, refl, inl (ground arith))
recorded_decision_answers r' d (resolve now a r s l n) e f = (r, refl, inl (ground arith))
recorded_decision_answers r' d (block now u r s l n k) e f = (r, refl, inl (ground arith))
recorded_decision_answers r' d (renew now u r s l n k) e f = (r, refl, inl (ground arith))
recorded_decision_answers r' d (answer now a ep r w o t) e f = (r, refl, inr (ep, o, ground arith))
