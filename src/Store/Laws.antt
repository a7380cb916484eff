-- ===== src/Store/Laws.antt =====
-- src/core/store.ts: what the interface promises. Every write is checked against the version that
-- it was based on, is applied whole or not at all.
use corrobo.Base.{◌⊎◌, inl, ℕ, ◌≡◌, String, Option, none, some, if◌then◌else◌, str_eq}
use corrobo.Types.{OperationRecord, OperationStatus, AttemptRecord, ReservedAttemptInput}
use corrobo.Fault.{Outcome, ok, thrown}
use corrobo.Store.Kept.{Kept, kept_creation, kept_update}
use corrobo.Store.Changes.{
  NewOperationInput, OperationUpdate, EffectStore, created, reserve_change, append_change,
  latest_change, operation_change, status_change, stamped,
}

-- The records of a store, by their identity.
abbrev pub Records : Type 0
Records = String → Option OperationRecord

unfoldable pub store_at : String → OperationRecord → Records → Records
store_at id r rs k = if str_eq id k then some r else rs k

module _ {S : Type 0} (view : S → Records) where
  -- A call that leaves every record as it is.
  abbrev pub LeavesRecords : {A : Type 0} → S → Outcome A × S → Type 0
  LeavesRecords s (_, s') = view s' ≡ view s

  abbrev pub ReadsRecord : String → S → Outcome (Option OperationRecord) × S → Type 0
  ReadsRecord id s (ok found, s') = (found ≡ view s id) × (view s' ≡ view s)
  ReadsRecord id s (thrown _, s') = view s' ≡ view s

  abbrev pub CreatesRecord : ℕ → NewOperationInput → S → Outcome OperationRecord × S → Type 0
  CreatesRecord now i s (ok r, s') =
      (view s i.identity.id ≡ none)
      × (r ≡ created now i)
      × (view s' ≡ store_at i.identity.id r (view s))
  CreatesRecord now i s (thrown _, s') = view s' ≡ view s

  -- A write of `change`, based on version `expected`.
  abbrev pub WritesRecord :
      ℕ
      → String
      → ℕ
      → (OperationRecord → OperationRecord)
      → S
      → Outcome OperationRecord × S
      → Type 0
  WritesRecord now id expected change s (ok r, s') =
      (old : OperationRecord) × (view s id ≡ some old)
      × (old.version ≡ expected)
      × (r ≡ stamped now (change old))
      × (view s' ≡ store_at id r (view s))
  WritesRecord now id expected change s (thrown _, s') = view s' ≡ view s

module _ {S : Type 0} (view : S → Records) where
  -- The record `r` is on record now, made by `change` of the one at version `expected`.
  abbrev pub Wrote :
      String → ℕ → (OperationRecord → OperationRecord) → S → S → OperationRecord → Type 0
  Wrote id expected change s s' r =
      (old : OperationRecord) × (t : ℕ) × (view s id ≡ some old)
      × (old.version ≡ expected)
      × (r ≡ stamped t (change old))
      × (view s' ≡ store_at id r (view s))

  -- A write that throws has changed nothing, or all that it would have: its answer may be lost.
  abbrev pub MayWrite :
      String → ℕ → (OperationRecord → OperationRecord) → S → Outcome OperationRecord × S → Type 0
  MayWrite id expected change s (ok r, s') = Wrote id expected change s s' r
  MayWrite id expected change s (thrown _, s') =
      (view s' ≡ view s) ⊎ ((r : OperationRecord) × Wrote id expected change s s' r)

  abbrev pub Created : NewOperationInput → S → S → OperationRecord → Type 0
  Created i s s' r =
      (t : ℕ) × (view s i.identity.id ≡ none)
      × (r ≡ created t i)
      × (view s' ≡ store_at i.identity.id r (view s))

  abbrev pub MayCreate : NewOperationInput → S → Outcome OperationRecord × S → Type 0
  MayCreate i s (ok r, s') = Created i s s' r
  MayCreate i s (thrown _, s') = (view s' ≡ view s) ⊎ ((r : OperationRecord) × Created i s s' r)

  pub WritesRecord-MayWrite :
      (now : ℕ) (id : String) (v : ℕ) (change : OperationRecord → OperationRecord) (s : S)
      (o : Outcome OperationRecord × S)
      → WritesRecord view now id v change s o
      → MayWrite id v change s o
  WritesRecord-MayWrite now id v change s (ok r, s') (old, found, ver, made, same) =
      (old, now, found, ver, made, same)
  WritesRecord-MayWrite now id v change s (thrown f, s') same = inl same

  pub CreatesRecord-MayCreate :
      (now : ℕ) (i : NewOperationInput) (s : S) (o : Outcome OperationRecord × S)
      → CreatesRecord view now i s o
      → MayCreate i s o
  CreatesRecord-MayCreate now i s (ok r, s') (absent, made, same) = (now, absent, made, same)
  CreatesRecord-MayCreate now i s (thrown f, s') same = inl same

-- The promises of the interface, for a store whose records are `view` and that keeps `kept` of what
-- is written. The times that it writes are its own.
pub record StoreLaws {S : Type 0} (st : EffectStore S) : Type 0 where
  pub view : S → Records
  pub kept : Kept
  pub get_operation_lem : (id : String) (s : S) → ReadsRecord view id s (st.get_operation id s)
  pub create_operation_lem :
      (now : ℕ) (i : NewOperationInput) (s : S)
      → MayCreate view (kept_creation kept i) s (st.create_operation now i s)
  pub reserve_attempt_lem :
      (now : ℕ) (id : String) (a : ReservedAttemptInput) (v : ℕ) (s : S)
      → MayWrite view id v (reserve_change (kept.reservation a)) s (st.reserve_attempt now id a v s)
  pub append_attempt_lem :
      (now : ℕ) (id : String) (a : AttemptRecord) (status : OperationStatus) (v : ℕ) (s : S)
      → MayWrite view id v
          (append_change (kept.attempt a) status)
          s
          (st.append_attempt now id a status v s)
  pub update_latest_attempt_lem :
      (now : ℕ) (id : String) (a : AttemptRecord) (status : OperationStatus) (v : ℕ) (s : S)
      → MayWrite view id v
          (latest_change (kept.attempt a) status)
          s
          (st.update_latest_attempt now id a status v s)
  pub update_operation_lem :
      (now : ℕ) (id : String) (u : OperationUpdate) (v : ℕ) (s : S)
      → MayWrite view id v
          (operation_change (kept_update kept u))
          s
          (st.update_operation now id u v s)
  pub set_status_lem :
      (now : ℕ) (id : String) (status : OperationStatus) (v : ℕ) (s : S)
      → MayWrite view id v (status_change status) s (st.set_status now id status v s)
  pub try_acquire_lock_lem : (id : String) (s : S) → view (st.try_acquire_lock id s).1 ≡ view s
  pub release_lem : (id : String) (s : S) → view (st.release id s) ≡ view s
  pub now_lem :
      (read : ℕ → S → Outcome ℕ × S)
      → st.now ≡ some read
      → (n : ℕ) (s : S) → view (read n s).1 ≡ view s
