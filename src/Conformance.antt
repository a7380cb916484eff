-- ===== src/Conformance.antt =====
-- src/testing/conformance.ts: the harness's store, which crashes at a chosen write and has a clock of
-- its own, and `Verdict`, the judgement of a scenario.
pub mod Verdict
pub mod Crashes
use corrobo.Base.{ℕ, ◌+◌, String, Bool, Option, none, some}
use corrobo.Value.{Value}
use corrobo.Types.{OperationRecord, OperationStatus, AttemptRecord, ReservedAttemptInput}
use corrobo.Fault.{Fault, Outcome, ok, thrown, store_failure}
use corrobo.Store.{NewOperationInput, OperationUpdate, EffectStore}
use corrobo.Memory.{
  InMemoryStore, get_operation, create_operation, reserve_attempt, append_attempt,
  update_latest_attempt, update_operation, set_status, try_acquire_lock, acquired, release,
}
use corrobo.Memory.Clone.{StructuredClone}

pub data CrashPoint : Type 0 where
  after_reserve on_resolve : CrashPoint

pub record HarnessStore : Type 0 where
  pub memory : InMemoryStore
  pub time : ℕ
  pub crash_on : Option CrashPoint

-- `SimulatedCrash`
abbrev pub simulated_crash : Fault
simulated_crash = store_failure (Value.error "SimulatedCrash")

-- An operation of `InMemoryStore`
abbrev pub within : {A : Type 0} → HarnessStore → A × InMemoryStore → A × HarnessStore
within s (a, m) = (a, record s { memory = m })

unfoldable pub advance : ℕ → HarnessStore → HarnessStore
advance ms s = record s { time = s.time + ms }

abbrev pub crash_reserved :
    HarnessStore → Outcome OperationRecord × InMemoryStore → Outcome OperationRecord × HarnessStore
crash_reserved s (thrown f, m) = (thrown f, record s { memory = m })
crash_reserved s (ok r, m) = elim s.crash_on as (λ _. Outcome OperationRecord × HarnessStore) [
  | none ↦ (ok r, record s { memory = m })
  | some point ↦ elim point [
    | after_reserve ↦ (thrown simulated_crash, record s { memory = m; crash_on = none })
    | on_resolve ↦ (ok r, record s { memory = m })
  ]
]

-- What the write would give is dropped when the crash comes first.
abbrev pub crash_resolved :
    Option CrashPoint
    → HarnessStore
    → Outcome OperationRecord × InMemoryStore
    → Outcome OperationRecord × HarnessStore
crash_resolved none s o = within s o
crash_resolved (some after_reserve) s o = within s o
crash_resolved (some on_resolve) s o = (thrown simulated_crash, record s { crash_on = none })

module _ (clone : StructuredClone) where
  -- `reserveAttempt`
  unfoldable pub harness_reserve :
      ℕ → String → ReservedAttemptInput → ℕ → HarnessStore → Outcome OperationRecord × HarnessStore
  unfolding reserve_attempt
  harness_reserve t id a v s = crash_reserved s (reserve_attempt clone t id a v s.memory)

  -- `updateLatestAttempt`
  unfoldable pub harness_resolve :
      ℕ
      → String
      → AttemptRecord
      → OperationStatus
      → ℕ
      → HarnessStore
      → Outcome OperationRecord × HarnessStore
  unfolding update_latest_attempt
  harness_resolve t id a status v s =
      crash_resolved s.crash_on s (update_latest_attempt clone t id a status v s.memory)

  unfoldable pub harness_store : EffectStore HarnessStore
  unfolding get_operation create_operation append_attempt update_operation set_status
      try_acquire_lock release harness_reserve harness_resolve
  harness_store = record {
    coordinated = record {
      get_operation = λ id s. within s (get_operation clone id s.memory);
      create_operation = λ t i s. within s (create_operation clone t i s.memory);
      reserve_attempt = harness_reserve;
      append_attempt = λ t id a st v s. within s (append_attempt clone t id a st v s.memory);
      update_latest_attempt = harness_resolve;
      update_operation = λ t id u v s. within s (update_operation clone t id u v s.memory);
      set_status = λ t id st v s. within s (set_status clone t id st v s.memory);
      now = some (λ _ s. (ok s.time, s));
    };
    try_acquire_lock = λ id s. within s (try_acquire_lock id s.memory);
    release = λ id s. record s { memory = (release (acquired id) s.memory).1 };
  }
