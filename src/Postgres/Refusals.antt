-- ===== src/Postgres/Refusals.antt =====
-- src/stores/postgres.ts: what the store's writes throw when no row has matched.
use corrobo.Base.{
  ℕ, ◌≡◌, ◌≢◌, refl, sym, ap, String, Bool, true, false, Option, none, some, List, [], arith, inl,
  inr, ◌==◌, ==_iff, Bool-cases,
}
use corrobo.Types.{OperationRecord, OperationStatus, AttemptRecord, ReservedAttemptInput}
use corrobo.Fault.{Fault, Outcome, ok, thrown, store_conflict, no_operation, no_attempt}
use corrobo.Store.{OperationUpdate}
use corrobo.Store.Laws.{Records}
use corrobo.Postgres.Sql.{
  Row, Assignment, Database, DatabaseLaws, Answer, answered, failed, unique_violation, other_error,
  Selects, SqlError, Unmatched, Updates, matches, row_to_record,
}
use corrobo.Postgres.Operations.{
  explain, updated, get_operation, versioned_write_result, versioned_write, sent, selected,
  fault_of, reservation_sets, append_sets, latest_sets, status_sets, sets_of, column_update,
  store_bug, reserve_attempt, append_attempt, update_latest_attempt, update_operation, set_status,
}
use corrobo.Postgres.Columns.{column_reservation, column_attempt}
use corrobo.Postgres.Rows.{first_record-rows_of, view, record_of, records_of_table}

-- What a refusal says of the records as they were, for a write of `id` at version `v`.
abbrev pub Says : Records → String → ℕ → Fault → Type 0
Says records id v (store_conflict j expected w) =
    (j ≡ id)
    × (expected ≡ some v)
    × ((r : OperationRecord) × (records id ≡ some r) × (r.version ≡ w) × (w ≢ v))
Says records id v (no_operation j) = (j ≡ id) × (records id ≡ none)
Says records id v (no_attempt j) =
    (j ≡ id) × ((r : OperationRecord) × (records id ≡ some r) × (r.version ≡ v) × (r.attempts ≡ []))
Says records id v _ = Unit

abbrev pub Refuses : {S : Type 0} → Records → String → ℕ → Outcome OperationRecord × S → Type 0
Refuses records id v (ok _, _) = Unit
Refuses records id v (thrown f, _) = Says records id v f

-- What a write gives for `otherwise`, by whether it needs an attempt.
abbrev otherwise_of : String → Bool → Fault
otherwise_of id true = no_attempt id
otherwise_of id false = store_bug

attempts_missing :
    (o : Option Row) (v : ℕ) (r : OperationRecord)
    → ((old : Row) → o ≡ some old → matches v true old ≡ false)
    → record_of o ≡ some r
    → r.version ≡ v
    → r.attempts ≡ []
unfolding row_to_record
attempts_missing none v r missed found same = absurd (ground arith)
attempts_missing (some row) v r missed found same =
    ground (arith, missed row refl, ==_iff row.version v)

module _ {S : Type 0} (db : Database S) (laws : DatabaseLaws db) (id : String) (v : ℕ) where
  -- A record at the version that a write names, which the write has not matched.
  unmatched_empty :
      (nonempty : Bool) (s : S) (r : OperationRecord)
      → ((old : Row) → laws.table s id ≡ some old → matches v nonempty old ≡ false)
      → view db laws s id ≡ some r
      → r.version ≡ v
      → Says (view db laws s) id v (otherwise_of id nonempty)
  unfolding row_to_record
  unmatched_empty false s r missed found same = tt
  unmatched_empty true s r missed found same =
      (refl, (r, found, same, attempts_missing (laws.table s id) v r missed found same))

  fault_of-Says : (s : S) (e : SqlError) → Says (view db laws s) id v (fault_of e)
  fault_of-Says s unique_violation = tt
  fault_of-Says s (other_error _) = tt

  explain_found :
      (nonempty : Bool) (s s2 : S) (o : Option OperationRecord)
      → ((old : Row) → laws.table s id ≡ some old → matches v nonempty old ≡ false)
      → view db laws s id ≡ o
      → Refuses (view db laws s) id v (explain db id v (otherwise_of id nonempty) (ok o, s2))
  explain_found nonempty s s2 none missed found = (refl, found)
  explain_found nonempty s s2 (some r) missed found = elim (Bool-cases (r.version == v)) [
    | inl e ↦ rw e (unmatched_empty nonempty s r missed found ((==_iff r.version v).0 e))
    | inr e ↦ rw e (refl, refl, (r, found, refl, λ p. ground arith))
  ]

  explain-Refuses :
      (nonempty : Bool) (s s' : S) (o : Answer (List Row) × S)
      → Unmatched laws.table id v nonempty s s'
      → Selects laws.table id s' o
      → Refuses (view db laws s) id v (explain db id v (otherwise_of id nonempty) (selected db o))
  explain-Refuses nonempty s s' (failed e, s2) missed read = fault_of-Says s e
  explain-Refuses nonempty s s' (answered rows, s2) (missed, same) (found, _) =
      explain_found nonempty s s2 _ missed (
        sym (
          rw (found, first_record-rows_of db (laws.table s' id))
            (ap (λ t. records_of_table t id) same)))

  updated-Refuses :
      (sets : List Assignment) (nonempty : Bool) (s : S) (o : Answer (List Row) × S)
      → Updates laws.table sets id v nonempty s o
      → Refuses (view db laws s) id v (updated db id v (otherwise_of id nonempty) o)
  unfolding versioned_write_result get_operation
  updated-Refuses sets nonempty s (failed e, s') done = fault_of-Says s e
  updated-Refuses sets nonempty s (answered rows, s') (inl (e, missed)) =
      rw e (explain-Refuses nonempty s s' _ missed (laws.select_lem id s'))
  updated-Refuses sets nonempty s (answered rows, s') (inr (row, e, done)) = rw e tt

  versioned_write-Refuses :
      (sets : List Assignment) (nonempty : Bool) (s : S)
      → Refuses
          (view db laws s)
          id
          v
          (versioned_write db sets id v nonempty (otherwise_of id nonempty) s)
  unfolding versioned_write
  versioned_write-Refuses sets nonempty s =
      updated-Refuses sets nonempty s _ (laws.update_lem sets id v nonempty s)

  sent-Refuses :
      {A : Type 0} (o : Option A) (sets : A → List Assignment) (nonempty : Bool) (s : S)
      → Refuses
          (view db laws s)
          id
          v
          (sent db o (λ a. versioned_write db (sets a) id v nonempty (otherwise_of id nonempty)) s)
  sent-Refuses none sets nonempty s = tt
  sent-Refuses (some a) sets nonempty s = versioned_write-Refuses (sets a) nonempty s

-- When a write of `PostgresStore` throws, what it says is so: a conflict names the version on record,
-- which is another one than the write was based on; an unknown operation is not on record; a missing
-- attempt means that the operation is at the expected version and has no attempt.
pub writes_refused :
    {S : Type 0} (db : Database S) (laws : DatabaseLaws db) (id : String) (v now : ℕ) (s : S)
    (i : ReservedAttemptInput) (a : AttemptRecord) (status : OperationStatus) (u : OperationUpdate)
    → Refuses (view db laws s) id v (reserve_attempt db now id i v s)
      × Refuses (view db laws s) id v (append_attempt db now id a status v s)
      × Refuses (view db laws s) id v (update_latest_attempt db now id a status v s)
      × Refuses (view db laws s) id v (update_operation db now id u v s)
      × Refuses (view db laws s) id v (set_status db now id status v s)
unfolding reserve_attempt append_attempt update_latest_attempt update_operation set_status
writes_refused db laws id v now s i a status u = (
  sent-Refuses db laws id v (column_reservation db.reread i) reservation_sets false s,
  sent-Refuses db laws id v (column_attempt db.reread a) (λ b. append_sets b status) false s,
  sent-Refuses db laws id v (column_attempt db.reread a) (λ b. latest_sets b status) true s,
  sent-Refuses db laws id v (column_update db u) sets_of false s,
  versioned_write-Refuses db laws id v (status_sets status) false s,
)
