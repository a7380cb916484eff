-- ===== src/Protocol/History.antt =====
-- What the steps of a record's life give of its attempts.
use corrobo.Base.{
  ℕ, suc, ◌+◌, ◌≤◌, ◌<◌, String, ◌≡◌, ◌≢◌, refl, ◌∙◌, true, Option, none, some, List, [], ◌∷◌,
  arith, length, get_last?, push, set_last, ltb→lt,
}
use corrobo.Types.{
  not_applied, closed, limit, AttemptRecord, reserved, resolved, ReservedAttempt, ResolvedAttempt,
  OperationRecord, EffectContract,
}
use corrobo.Disposition.{has_attempts_remaining, decide_disposition}
use corrobo.Disposition.Table.{IsSettled}
use corrobo.Store.{created, reserve_change, latest_change, operation_change, stamped}
use corrobo.Runtime.Attempt.{decide, transport_ok, settlement_window, base_of_resolved}
use corrobo.Protocol.{
  AllowsAttempt, AwaitsResolution, IsDecided, Step, Steps, done, more, create, reserve, resolve,
  block, renew, answer,
}

abbrev pub number_of : AttemptRecord → ℕ
number_of (reserved a) = a.attempt_number
number_of (resolved a) = a.attempt_number

-- An attempt that another one may follow: its effect was found not to have happened when its request
-- could no longer land, by a reading of the clock, and the policy had attempts left.
abbrev pub IsSpent : EffectContract → (ℕ → Type 0) → AttemptRecord → Type 0
IsSpent c Reading (reserved a) = ⊥
IsSpent c Reading (resolved a) =
    (a.evidence_state ≡ not_applied)
    × (has_attempts_remaining a.attempt_number c.retry_policy.max_attempts ≡ true)
    × ((now : ℕ) × Reading now
        × IsSettled (record {
          transport_ok = transport_ok a.transport;
          attempt_started_at = a.started_at;
          now = now;
          max_in_flight_ms = settlement_window c.max_in_flight_ms a.max_in_flight_ms;
        }))

abbrev IsConcluded : EffectContract → (ℕ → Type 0) → AttemptRecord → Type 0
IsConcluded c Reading (reserved a) = Unit
IsConcluded c Reading (resolved a) = IsDecided c Reading a

-- The attempts after the first `n`: numbered in order, each but the last spent.
abbrev pub IsHistory : EffectContract → (ℕ → Type 0) → ℕ → List AttemptRecord → Type 0
IsHistory c Reading n [] = Unit
IsHistory c Reading n (x ∷ []) = (number_of x ≡ suc n) × IsConcluded c Reading x
IsHistory c Reading n (x ∷ y ∷ ys) =
    (number_of x ≡ suc n) × IsSpent c Reading x × IsHistory c Reading (suc n) (y ∷ ys)

AllowsAttempt-IsSpent :
    (c : EffectContract) (Reading : ℕ → Type 0) (x : AttemptRecord)
    → IsConcluded c Reading x
    → AllowsAttempt (some x)
    → IsSpent c Reading x
unfolding decide decide_disposition
AllowsAttempt-IsSpent c Reading (reserved a) d h = absurd h
AllowsAttempt-IsSpent c Reading (resolved a) (now, reading, d, t) (again, over) =
    (ground arith, ground arith, (now, reading, ground arith))

push-IsHistory :
    (c : EffectContract) (Reading : ℕ → Type 0) (n : ℕ) (xs : List AttemptRecord)
    (a : ReservedAttempt)
    → IsHistory c Reading n xs
    → AllowsAttempt (get_last? xs)
    → a.attempt_number ≡ suc (n + length xs)
    → IsHistory c Reading n (push xs (reserved a))
push-IsHistory c Reading n [] a h allows e = (omega arith, tt)
push-IsHistory c Reading n (x ∷ []) a (number, concluded) allows e =
    (number, AllowsAttempt-IsSpent c Reading x concluded allows, (omega arith, tt))
push-IsHistory c Reading n (x ∷ y ∷ []) a (number, spent, rest) allows e =
    (number, spent, push-IsHistory c Reading (suc n) (y ∷ []) a rest allows (omega arith))
push-IsHistory c Reading n (x ∷ y ∷ z ∷ ys) a (number, spent, rest) allows e =
    (number, spent, push-IsHistory c Reading (suc n) (y ∷ z ∷ ys) a rest allows (omega arith))

number_kept :
    (x : AttemptRecord) (a : ResolvedAttempt)
    → AwaitsResolution (some x) (base_of_resolved a)
    → number_of (resolved a) ≡ number_of x
number_kept (reserved b) a e = ground (arith, e)
number_kept (resolved b) a (e, _) = ground (arith, e)

set_last-IsHistory :
    (c : EffectContract) (Reading : ℕ → Type 0) (n : ℕ) (xs : List AttemptRecord)
    (a : ResolvedAttempt)
    → IsHistory c Reading n xs
    → AwaitsResolution (get_last? xs) (base_of_resolved a)
    → IsDecided c Reading a
    → IsHistory c Reading n (set_last xs (resolved a))
set_last-IsHistory c Reading n [] a h awaits d = absurd awaits
set_last-IsHistory c Reading n (x ∷ []) a (number, concluded) awaits d =
    (number_kept x a awaits ∙ number, d)
set_last-IsHistory c Reading n (x ∷ y ∷ []) a (number, spent, rest) awaits d =
    (number, spent, set_last-IsHistory c Reading (suc n) (y ∷ []) a rest awaits d)
set_last-IsHistory c Reading n (x ∷ y ∷ z ∷ ys) a (number, spent, rest) awaits d =
    (number, spent, set_last-IsHistory c Reading (suc n) (y ∷ z ∷ ys) a rest awaits d)

abbrev pub HasHistory : EffectContract → (ℕ → Type 0) → Option OperationRecord → Type 0
HasHistory c Reading none = Unit
HasHistory c Reading (some r) = IsHistory c Reading 0 r.attempts

Step-HasHistory :
    {c : EffectContract} {Reading : ℕ → Type 0} {id : String} {o o' : Option OperationRecord}
    → Step c Reading id o o'
    → HasHistory c Reading o
    → HasHistory c Reading o'
unfolding created reserve_change latest_change operation_change stamped
Step-HasHistory (create now i e) h = tt
Step-HasHistory {c} {Reading} (reserve now a r open_now allows number) h =
    push-IsHistory c Reading 0 r.attempts _ h allows (omega arith)
Step-HasHistory {c} {Reading} (resolve now a r open_now awaits d) h =
    set_last-IsHistory c Reading 0 r.attempts a h awaits d
Step-HasHistory (block now u r e l n d) h = h
Step-HasHistory (renew now u r e l n d) h = h
Step-HasHistory (answer now review e r w a t) h = h

-- In any run of steps, the attempts of an operation stay numbered in order, and every attempt but
-- the latest was found, when its request could no longer land, not to have happened.
pub Steps-HasHistory :
    {c : EffectContract} {Reading : ℕ → Type 0} {id : String} {o o' : Option OperationRecord}
    → Steps c Reading id o o'
    → HasHistory c Reading o
    → HasHistory c Reading o'
Steps-HasHistory done h = h
Steps-HasHistory (more ss s) h = Step-HasHistory s (Steps-HasHistory ss h)

IsHistory-le :
    (c : EffectContract) (Reading : ℕ → Type 0) (m n : ℕ) (xs : List AttemptRecord)
    → c.retry_policy.max_attempts ≡ limit m
    → IsHistory c Reading n xs
    → n < m
    → n + length xs ≤ m
IsHistory-le c Reading m n [] e h lt = omega arith
IsHistory-le c Reading m n (x ∷ []) e h lt = omega arith
IsHistory-le c Reading m n (reserved b ∷ y ∷ ys) e (number, spent, rest) lt = absurd spent
IsHistory-le c Reading m n (resolved b ∷ y ∷ ys) e (number, spent, rest) lt =
    let left : b.attempt_number < m = ltb→lt b.attempt_number m (rw e at spent.1) in
    omega (arith, IsHistory-le c Reading m (suc n) (y ∷ ys) e rest (omega arith))

-- From its creation on, an operation never has more attempts than its contract allows, if that is
-- at least one.
pub Steps-bounded :
    {c : EffectContract} {Reading : ℕ → Type 0} {id : String} {r : OperationRecord} (m : ℕ)
    → c.retry_policy.max_attempts ≡ limit m
    → 0 < m
    → Steps c Reading id none (some r)
    → length r.attempts ≤ m
Steps-bounded {c} {Reading} {r = r} m e pos ss =
    omega (arith, IsHistory-le c Reading m 0 r.attempts e (Steps-HasHistory ss tt) pos)

no_step_from_closed :
    {c : EffectContract} {Reading : ℕ → Type 0} {id : String} {o o' : Option OperationRecord}
    (r : OperationRecord)
    → Step c Reading id o o'
    → o ≡ some r
    → r.status ≢ closed
no_step_from_closed r (create now i e) q shut = cc
no_step_from_closed r (reserve now a r' e l n) q shut = cc
no_step_from_closed r (resolve now a r' e l n) q shut = cc
no_step_from_closed r (block now u r' e l n d) q shut = cc
no_step_from_closed r (renew now u r' e l n d) q shut = cc
no_step_from_closed r (answer now review e r' w a t) q shut = cc

-- A closed operation stays as it is for good.
pub Steps-closed :
    {c : EffectContract} {Reading : ℕ → Type 0} {id : String} (r : OperationRecord)
    {o' : Option OperationRecord}
    → r.status ≡ closed
    → Steps c Reading id (some r) o'
    → o' ≡ some r
Steps-closed r shut done = refl
Steps-closed r shut (more ss s) = absurd (no_step_from_closed r s (Steps-closed r shut ss) shut)
