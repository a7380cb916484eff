-- ===== src/Memory/Writes.antt =====
-- src/stores/memory.ts: what the writes of `InMemoryStore` do to its records.
use mathlib.Core.Path.{fun_ext}
use corrobo.Base.{ℕ, ◌≡◌, refl, String, arith, ◌⊎◌, inl, inr, Option-cases}
use corrobo.Types.{OperationRecord, AttemptRecord, OperationStatus, ReservedAttemptInput}
use corrobo.Fault.{Fault, Outcome, ok, thrown}
use corrobo.Store.{
  NewOperationInput, OperationUpdate, stamped, created, reserve_change, append_change,
  latest_change, operation_change, status_change,
}
use corrobo.Store.Kept.{
  kept_creation, kept_update, everything, kept_creation-everything, kept_update-everything,
}
use corrobo.Store.Laws.{
  Records, store_at, WritesRecord, CreatesRecord, MayWrite, MayCreate, WritesRecord-MayWrite,
  CreatesRecord-MayCreate,
}
use corrobo.Memory.{
  InMemoryStore, put_record, write_changed, replace_latest, try_acquire_lock, create_operation,
  write, reserve_attempt, append_attempt, update_latest_attempt, update_operation, set_status,
}
use corrobo.Memory.Clone.{StructuredClone, clone_record-cases}
use corrobo.Memory.Map.{lookup, insert, lookup-insert}

abbrev pub records_of : InMemoryStore → Records
records_of s id = lookup id s.records

lookup-insert-store_at :
    (id : String) (r : OperationRecord) (s : InMemoryStore)
    → (λ k. lookup k (insert id r s.records)) ≡ store_at id r (records_of s)
unfolding store_at
lookup-insert-store_at id r s = fun_ext λ k. lookup-insert id k r s.records

Outcome-cases :
    {A : Type 0} (o : Outcome A) → ((f : Fault) × (o ≡ thrown f)) ⊎ ((a : A) × (o ≡ ok a))
Outcome-cases (ok a) = inr (a, refl)
Outcome-cases (thrown f) = inl (f, refl)

pub replace_latest_lem :
    (id : String) (a : AttemptRecord) (status : OperationStatus) (r r' : OperationRecord)
    → replace_latest id a status r ≡ ok r'
    → r' ≡ latest_change a status r
replace_latest_lem id a status r r' e = ground arith

pub try_acquire_lock_keeps :
    (id : String) (s : InMemoryStore) → records_of (try_acquire_lock id s).1 ≡ records_of s
unfolding try_acquire_lock
try_acquire_lock_keeps id s = ground arith

module _ (clone : StructuredClone) where
  -- Creating an operation, when it returns a record, found none under its identity and stored the new
  -- one, at version 0 and without attempts, and nothing else; when it throws it changes no record.
  pub create_operation-CreatesRecord :
      (now : ℕ) (i : NewOperationInput) (s : InMemoryStore)
      → CreatesRecord records_of now i s (create_operation clone now i s)
  unfolding create_operation put_record
  create_operation-CreatesRecord now i s = elim (clone_record-cases clone (created now i)) [
    | inl copy ↦ ground (arith, copy, lookup-insert-store_at i.identity.id (created now i) s)
    | inr (f, failed) ↦ ground (arith, failed)
  ]

  -- A change that cannot fail, or fails as `change` says.
  pub write-WritesRecord :
      (now : ℕ) (id : String) (v : ℕ) (change : OperationRecord → Outcome OperationRecord)
      (spec : OperationRecord → OperationRecord) (s : InMemoryStore)
      → ((r r' : OperationRecord) → change r ≡ ok r' → r' ≡ spec r)
      → WritesRecord records_of now id v spec s (write clone now id v change s)
  unfolding write write_changed put_record
  write-WritesRecord now id v change spec s h = elim (Option-cases (lookup id s.records)) [
    | inl missing ↦ ground arith
    | inr (r, found) ↦ elim (clone_record-cases clone r) [
      | inr (f, uncopied) ↦ ground (arith, uncopied)
      | inl copy ↦ elim (Outcome-cases (change r)) [
        | inl (f, failed) ↦ ground (arith, copy)
        | inr (r', changed) ↦ elim (clone_record-cases clone (stamped now r')) [
          | inr (f, uncopied) ↦ ground (arith, copy)
          | inl stored ↦
              ground
                (arith, copy, stored, h r r' changed, lookup-insert-store_at id (stamped now r') s)
        ]
      ]
    ]
  ]

  pub write_pure :
      (now : ℕ) (id : String) (v : ℕ) (spec : OperationRecord → OperationRecord) (s : InMemoryStore)
      → WritesRecord records_of now id v spec s (write clone now id v (λ r. ok (spec r)) s)
  write_pure now id v spec s = write-WritesRecord now id v (λ r. ok (spec r)) spec s (λ r r' e. cc)

  -- Every write of the in-memory store, when it returns a record, found one on record at exactly the
  -- version that the caller names, and stored that record changed as the write says, stamped with the
  -- next version and the time, and nothing else; when it throws it changes no record.
  pub writes-WritesRecord :
      (now : ℕ) (id : String) (v : ℕ) (s : InMemoryStore) (i : ReservedAttemptInput)
      (a : AttemptRecord) (status : OperationStatus) (u : OperationUpdate)
      → WritesRecord records_of now id v (reserve_change i) s (reserve_attempt clone now id i v s)
        × WritesRecord records_of now id v
            (append_change a status)
            s
            (append_attempt clone now id a status v s)
        × WritesRecord records_of now id v
            (latest_change a status)
            s
            (update_latest_attempt clone now id a status v s)
        × WritesRecord records_of now id v
            (operation_change u)
            s
            (update_operation clone now id u v s)
        × WritesRecord records_of now id v
            (status_change status)
            s
            (set_status clone now id status v s)
  unfolding reserve_attempt append_attempt update_latest_attempt update_operation set_status
  writes-WritesRecord now id v s i a status u = (
    write_pure now id v (reserve_change i) s,
    write_pure now id v (append_change a status) s,
    write-WritesRecord now id v (replace_latest id a status) (latest_change a status) s
        (replace_latest_lem id a status),
    write_pure now id v (operation_change u) s,
    write_pure now id v (status_change status) s,
  )

  pub create_operation-MayCreate :
      (now : ℕ) (i : NewOperationInput) (s : InMemoryStore)
      → MayCreate records_of (kept_creation everything i) s (create_operation clone now i s)
  create_operation-MayCreate now i s =
      rw (kept_creation-everything i)
        (CreatesRecord-MayCreate records_of now i s _ (create_operation-CreatesRecord now i s))

  pub update_operation-MayWrite :
      (now : ℕ) (id : String) (u : OperationUpdate) (v : ℕ) (s : InMemoryStore)
      → MayWrite records_of id v
          (operation_change (kept_update everything u))
          s
          (update_operation clone now id u v s)
  unfolding update_operation
  update_operation-MayWrite now id u v s = rw (kept_update-everything u) (
      WritesRecord-MayWrite records_of now id v (operation_change u) s _
        (write_pure now id v (operation_change u) s))

  pub write_pure-MayWrite :
      (now : ℕ) (id : String) (v : ℕ) (spec : OperationRecord → OperationRecord) (s : InMemoryStore)
      → MayWrite records_of id v spec s (write clone now id v (λ r. ok (spec r)) s)
  write_pure-MayWrite now id v spec s =
      WritesRecord-MayWrite records_of now id v spec s _ (write_pure now id v spec s)

  pub update_latest_attempt-MayWrite :
      (now : ℕ) (id : String) (a : AttemptRecord) (status : OperationStatus) (v : ℕ)
      (s : InMemoryStore)
      → MayWrite records_of id v
          (latest_change a status)
          s
          (update_latest_attempt clone now id a status v s)
  unfolding update_latest_attempt
  update_latest_attempt-MayWrite now id a status v s =
      WritesRecord-MayWrite records_of now id v (latest_change a status) s _ (
        write-WritesRecord now id v (replace_latest id a status) (latest_change a status) s
          (replace_latest_lem id a status))
