-- ===== src/Memory.antt =====
-- src/stores/memory.ts: `InMemoryStore`. `Clone` is about the copies that it makes, `Writes` about its
-- writes, `Laws` about the interface, `Lock` and `Freed` about its mutex.
pub mod Map
pub mod Clone
pub mod Writes
pub mod Laws
pub mod Lock
pub mod Freed
use corrobo.Base.{
  ℕ, String, Bool, true, false, ◌||◌, Option, none, some, List, [], ◌∷◌, ◌==◌, if◌then◌else◌,
  str_eq,
}
use corrobo.Types.{OperationRecord, OperationStatus, AttemptRecord, ReservedAttemptInput}
use corrobo.Fault.{Outcome, ok, thrown, store_conflict, no_operation, no_attempt}
use corrobo.Store.{
  NewOperationInput, OperationUpdate, CoordinatedStore, EffectStore, created, reserve_change,
  append_change, latest_change, operation_change, status_change, stamped,
}
use Map.{Dict, lookup, insert}
use Clone.{StructuredClone, clone_record}

pub record InMemoryStore : Type 0 where
  pub records : Dict OperationRecord
  pub locked : List String

unfoldable pub empty : InMemoryStore
empty = record { records = []; locked = [] }

-- `this.locked.has(id)`
unfoldable pub is_locked : String → List String → Bool
is_locked id [] = false
is_locked id (k ∷ ks) = str_eq k id || is_locked id ks

-- `this.locked.delete(id)`
unfoldable pub unlock : String → List String → List String
unlock id [] = []
unlock id (k ∷ ks) = if str_eq k id then unlock id ks else k ∷ unlock id ks

unfoldable pub try_acquire_lock : String → InMemoryStore → Outcome Bool × InMemoryStore
unfolding is_locked
try_acquire_lock id s =
    if is_locked id s.locked then (ok false, s) else (ok true, record s { locked = id ∷ s.locked })

-- `OperationLock`: the handle that `tryAcquireLock` gives, with its own `released`.
pub record OperationLock : Type 0 where
  pub identity_id : String
  pub released : Bool

-- The handle of a lock that was just acquired.
abbrev pub acquired : String → OperationLock
acquired id = record { identity_id = id; released = false }

-- `release`
unfoldable pub release : OperationLock → InMemoryStore → OperationLock × InMemoryStore
unfolding unlock
release l s =
    if l.released
    then (l, s)
    else (record l { released = true }, record s { locked = unlock l.identity_id s.locked })

abbrev pub replace_latest :
    String → AttemptRecord → OperationStatus → OperationRecord → Outcome OperationRecord
replace_latest id a status r = elim r.attempts [
  | [] ↦ thrown (no_attempt id)
  | _ ∷ _ ↦ ok (latest_change a status r)
]

module _ (clone : StructuredClone) where
  unfoldable pub found_copy : Option OperationRecord → Outcome (Option OperationRecord)
  unfolding clone_record
  found_copy none = ok none
  found_copy (some r) = elim (clone_record clone r) [
    | ok copy ↦ ok (some copy)
    | thrown f ↦ thrown f
  ]

  unfoldable pub get_operation :
      String → InMemoryStore → Outcome (Option OperationRecord) × InMemoryStore
  unfolding lookup found_copy
  get_operation id s = (found_copy (lookup id s.records), s)

  -- A copy is put on record, and a copy of it is returned.
  unfoldable pub put_record :
      String → OperationRecord → InMemoryStore → Outcome OperationRecord × InMemoryStore
  unfolding clone_record insert
  put_record id r s = elim (clone_record clone r) [
    | ok stored ↦ (clone_record clone stored, record s { records = insert id stored s.records })
    | thrown f ↦ (thrown f, s)
  ]

  unfoldable pub create_operation :
      ℕ → NewOperationInput → InMemoryStore → Outcome OperationRecord × InMemoryStore
  unfolding created lookup put_record
  create_operation now i s = elim (lookup i.identity.id s.records) [
    | some existing ↦ (thrown (store_conflict i.identity.id none existing.version), s)
    | none ↦ put_record i.identity.id (created now i) s
  ]

  -- `change` applied to the copy `next`, and the result put on record.
  unfoldable pub write_changed :
      ℕ
      → String
      → (OperationRecord → Outcome OperationRecord)
      → Outcome OperationRecord
      → InMemoryStore
      → Outcome OperationRecord × InMemoryStore
  unfolding stamped put_record
  write_changed now id change (thrown f) s = (thrown f, s)
  write_changed now id change (ok next) s = elim (change next) [
    | ok changed ↦ put_record id (stamped now changed) s
    | thrown f ↦ (thrown f, s)
  ]

  -- `write`: the change is applied to a copy, and a copy of that is stored only if nothing threw.
  unfoldable pub write :
      ℕ
      → String
      → ℕ
      → (OperationRecord → Outcome OperationRecord)
      → InMemoryStore
      → Outcome OperationRecord × InMemoryStore
  unfolding lookup clone_record write_changed
  write now id expected change s = elim (lookup id s.records) [
    | none ↦ (thrown (no_operation id), s)
    | some current ↦
        if current.version == expected
        then write_changed now id change (clone_record clone current) s
        else (thrown (store_conflict id (some expected) current.version), s)
  ]

  unfoldable pub reserve_attempt :
      ℕ
      → String
      → ReservedAttemptInput
      → ℕ
      → InMemoryStore
      → Outcome OperationRecord × InMemoryStore
  unfolding write reserve_change
  reserve_attempt now id a v = write now id v (λ r. ok (reserve_change a r))

  unfoldable pub append_attempt :
      ℕ
      → String
      → AttemptRecord
      → OperationStatus
      → ℕ
      → InMemoryStore
      → Outcome OperationRecord × InMemoryStore
  unfolding write append_change
  append_attempt now id a status v = write now id v (λ r. ok (append_change a status r))

  unfoldable pub update_latest_attempt :
      ℕ
      → String
      → AttemptRecord
      → OperationStatus
      → ℕ
      → InMemoryStore
      → Outcome OperationRecord × InMemoryStore
  unfolding write latest_change
  update_latest_attempt now id a status v = write now id v (replace_latest id a status)

  unfoldable pub update_operation :
      ℕ → String → OperationUpdate → ℕ → InMemoryStore → Outcome OperationRecord × InMemoryStore
  unfolding write operation_change
  update_operation now id u v = write now id v (λ r. ok (operation_change u r))

  unfoldable pub set_status :
      ℕ → String → OperationStatus → ℕ → InMemoryStore → Outcome OperationRecord × InMemoryStore
  unfolding write status_change
  set_status now id status v = write now id v (λ r. ok (status_change status r))

  -- The store has no clock of its own. A pass releases the lock that it was given, once.
  abbrev pub memory_store : EffectStore InMemoryStore
  memory_store = record {
    coordinated = record {
      get_operation = get_operation;
      create_operation = create_operation;
      reserve_attempt = reserve_attempt;
      append_attempt = append_attempt;
      update_latest_attempt = update_latest_attempt;
      update_operation = update_operation;
      set_status = set_status;
      now = none;
    };
    try_acquire_lock = try_acquire_lock;
    release = λ id s. (release (acquired id) s).1;
  }
