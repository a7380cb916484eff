-- ===== src/Runtime/Review/Approvals.antt =====
-- src/core/runtime.ts `checkApproval`: which approvals still cover an attempt.
use corrobo.Base.{ℕ, ◌+◌, ◌<◌, ◌≤◌, ◌⊎◌, String, ◌≡◌, ◌↔◌, Option, none, some, eq_iff, arith}
use corrobo.Types.{RecordedReview}
use corrobo.Fault.{ok}
use corrobo.Runtime.Review.{approval_expiry, check_approval}

-- Before a time, if there is one.
abbrev pub IsBefore : ℕ → Option ℕ → Type 0
IsBefore now none = Unit
IsBefore now (some t) = now < t

-- Not yet of an age, if there is a limit.
abbrev pub IsWithin : ℕ → Option ℕ → ℕ → Type 0
IsWithin now none since = Unit
IsWithin now (some age) since = now < since + age

-- The last time that `Date` can represent.
abbrev pub last_date : ℕ
last_date = 8640000000000000

-- The first of the times at which the approval runs out, if there is any, is one that `Date` can
-- represent.
abbrev pub IsDated : Option ℕ → Option ℕ → ℕ → ℕ → Type 0
IsDated none none decided recorded = Unit
IsDated none (some t) decided recorded = t ≤ last_date
IsDated (some age) none decided recorded =
    (decided + age ≤ last_date) ⊎ (recorded + age ≤ last_date)
IsDated (some age) (some t) decided recorded =
    (t ≤ last_date) ⊎ (decided + age ≤ last_date) ⊎ (recorded + age ≤ last_date)

-- An approval is accepted for an attempt exactly when it was given for the intent on record, has not
-- reached its own time of expiry, is younger than the contract's age limit, counted from the decision
-- and from its recording, and runs out, if it does, at a time that `Date` can represent.
pub check_approval_accepts :
    (max_age : Option ℕ) (fingerprint : String) (a : RecordedReview) (now : ℕ)
    → (check_approval max_age fingerprint a now ≡ ok none)
      ↔ (fingerprint ≡ a.intent_fingerprint)
        × IsBefore now a.expires_at
        × IsWithin now max_age a.decided_at
        × IsWithin now max_age a.recorded_at
        × IsDated max_age a.expires_at a.decided_at a.recorded_at
unfolding check_approval approval_expiry
check_approval_accepts max_age fingerprint a now = (
  λ h. ground (arith, eq_iff fingerprint a.intent_fingerprint),
  λ h. ground (arith, eq_iff fingerprint a.intent_fingerprint),
)
