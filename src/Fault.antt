-- ===== src/Fault.antt =====
-- What the runtime and the stores throw, and a call that may throw. Messages are left out: a
-- constructor stands for each `throw`.
use corrobo.Base.{ℕ, String, Option}
use corrobo.Value.{Value}
use corrobo.Types.{EffectResult}

-- src/core/runtime.ts `ReviewRefusal`
pub data ReviewRefusal : Type 0 where
  not_awaiting_review stale_review_token decided_before_review_opened : ReviewRefusal
  intent_mismatch approval_already_expired : ReviewRefusal

-- What a `TypeError` complains of.
pub data Complaint : Type 0 where
  invalid_contract invalid_decision invalid_authorization unstorable_intent : Complaint

pub data Fault : Type 0 where
  -- src/core/store.ts `StoreConflictError`; no expected version stands for `null`
  store_conflict : (identity_id : String) (expected : Option ℕ) (actual : ℕ) → Fault
  no_operation : String → Fault
  no_attempt : String → Fault
  -- a store's own failure, such as a lost connection
  store_failure : Value → Fault
  type_error : Complaint → Fault
  -- the `RangeError` of a date that `Date` cannot represent
  range_error : Fault
  wrong_operation_type : String → Fault
  identity_reused : String → Fault
  -- src/core/runtime.ts `OperationBusyError` and `ReviewNotAcceptedError`
  operation_busy : String → Fault
  review_not_accepted : String → ReviewRefusal → EffectResult → Fault
  -- a value that authorize() threw
  hook_threw : Value → Fault

pub data Outcome (A : Type 0) : Type 0 where
  ok : A → Outcome A
  thrown : Fault → Outcome A
