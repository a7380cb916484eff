-- ===== src/Store.antt =====
-- src/core/store.ts: the persistence interface of the runtime. `Changes` is what each write does to
-- a record, `Laws` what the interface promises of an implementation.
mod Changes
pub mod Kept
pub mod Laws
pub use Changes.{
  NewOperationInput, Patch, keep, clear, put, OperationUpdate, CoordinatedStore, EffectStore,
  patched, status_of,
}
unfoldable pub use Changes.{
  created, reserve_change, append_change, latest_change, operation_change, status_change, stamped,
}
