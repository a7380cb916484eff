-- ===== src/Memory/Laws.antt =====
-- src/stores/memory.ts: `InMemoryStore` as an implementation of the store interface.
use corrobo.Base.{String, ◌≡◌, refl, sym, subst, Option, none, some, inl, inr}
use corrobo.Store.{reserve_change, append_change, status_change}
use corrobo.Store.Kept.{everything}
use corrobo.Store.Laws.{ReadsRecord, StoreLaws}
use corrobo.Memory.Clone.{StructuredClone, clone_record-cases}
use corrobo.Memory.Map.{lookup}
use corrobo.Types.{OperationRecord}
use corrobo.Fault.{Outcome, ok, thrown}
use corrobo.Memory.{
  InMemoryStore, memory_store, release, get_operation, found_copy, reserve_attempt, append_attempt,
  set_status,
}
use corrobo.Memory.Writes.{
  records_of, create_operation-MayCreate, write_pure-MayWrite, update_latest_attempt-MayWrite,
  update_operation-MayWrite, try_acquire_lock_keeps,
}

module _ (clone : StructuredClone) where
  pub found_copy_reads :
      (id : String) (s : InMemoryStore) (found : Option OperationRecord)
      → lookup id s.records ≡ found
      → ReadsRecord records_of id s (found_copy clone found, s)
  unfolding found_copy
  found_copy_reads id s none e = (sym e, refl)
  found_copy_reads id s (some r) e = elim (clone_record-cases clone r) [
    | inl copy ↦
        subst
          (λ (o : Outcome OperationRecord).
            ReadsRecord records_of id s (elim o [ ok c ↦ ok (some c) | thrown f ↦ thrown f ], s))
          (sym copy) (sym e, refl)
    | inr (f, failed) ↦
        subst
          (λ (o : Outcome OperationRecord).
            ReadsRecord records_of id s (elim o [ ok c ↦ ok (some c) | thrown f ↦ thrown f ], s))
          (sym failed) refl
  ]

  -- Every operation of the in-memory store does what the interface promises of it.
  unfoldable pub memory_laws : StoreLaws (memory_store clone)
  unfolding get_operation reserve_attempt append_attempt set_status release
  memory_laws = record {
    view = records_of;
    get_operation_lem = λ id s. found_copy_reads id s (lookup id s.records) refl;
    kept = everything;
    create_operation_lem = create_operation-MayCreate clone;
    reserve_attempt_lem = λ now id a v s. write_pure-MayWrite clone now id v (reserve_change a) s;
    append_attempt_lem =
        λ now id a status v s. write_pure-MayWrite clone now id v (append_change a status) s;
    update_latest_attempt_lem = update_latest_attempt-MayWrite clone;
    update_operation_lem = update_operation-MayWrite clone;
    set_status_lem =
        λ now id status v s. write_pure-MayWrite clone now id v (status_change status) s;
    try_acquire_lock_lem = try_acquire_lock_keeps;
    release_lem = λ id s. refl;
    now_lem = λ read e n s. cc;
  }
