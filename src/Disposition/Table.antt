-- ===== src/Disposition/Table.antt =====
-- src/core/disposition.ts: the mapping as a whole.
use corrobo.Base.{ℕ, ◌+◌, ◌≤◌, ◌<◌, ◌≡◌, ◌↔◌, ◌⊎◌, true, false, none, some, arith}
use corrobo.Types.{not_applied, pending, retry}
use corrobo.Disposition.{
  SettlementInput, DecideDispositionInput, has_attempts_remaining, decide_disposition,
}

-- The failed request of `s` can no longer land: it was answered, or its window has passed.
abbrev pub IsSettled : SettlementInput → Type 0
IsSettled s =
    (s.transport_ok ≡ true)
    ⊎ ((w : ℕ) × (s.max_in_flight_ms ≡ some w) × (s.attempt_started_at + w ≤ s.now))

-- Retrying at once is decided exactly when the effect is known not to have happened, the policy
-- allows another attempt, and the request of this one can no longer land.
pub decide_disposition_retry_now :
    (i : DecideDispositionInput)
    → ((decide_disposition i).disposition ≡ some retry)
        × ((decide_disposition i).retry_not_before ≡ none)
      ↔ (i.evidence_state ≡ not_applied)
        × (i.retry_policy.retry_on_not_applied ≡ true)
        × (has_attempts_remaining i.attempt_number i.retry_policy.max_attempts ≡ true)
        × IsSettled i.settlement
unfolding decide_disposition
decide_disposition_retry_now i = (λ h. ground arith, λ h. ground arith)

-- A time to wait for comes only with a retry after a failed request with a declared window, and is
-- the end of that window, which has not come yet.
pub decide_disposition_retry_later :
    (i : DecideDispositionInput) (t : ℕ)
    → (decide_disposition i).retry_not_before ≡ some t
    → ((decide_disposition i).disposition ≡ some retry)
      × (i.evidence_state ≡ not_applied)
      × (i.settlement.transport_ok ≡ false)
      × (i.settlement.now < t)
      × ((w : ℕ) × (i.settlement.max_in_flight_ms ≡ some w)
          × (t ≡ i.settlement.attempt_started_at + w))
unfolding decide_disposition
decide_disposition_retry_later i t h = ground arith

-- No disposition is decided exactly while the effect is pending.
pub decide_disposition_pending :
    (i : DecideDispositionInput)
    → ((decide_disposition i).disposition ≡ none) ↔ (i.evidence_state ≡ pending)
unfolding decide_disposition
decide_disposition_pending i = (λ h. ground arith, λ h. ground arith)
