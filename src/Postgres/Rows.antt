-- ===== src/Postgres/Rows.antt =====
-- src/stores/postgres.ts: the records of the table, and what `versionedWriteResult` makes of an UPDATE.
use mathlib.Core.Path.{fun_ext}
use corrobo.Base.{
  ℕ, ◌≡◌, refl, ap, ◌∙◌, String, Bool, true, List, [], Option, none, some, arith, inl, inr,
  Bool-cases, ◌==◌,
}
use corrobo.Types.{OperationRecord}
use corrobo.Fault.{Fault, Outcome, ok, thrown}
use corrobo.Store.{stamped}
use corrobo.Store.Laws.{Records, store_at, ReadsRecord, Wrote, MayWrite}
use corrobo.Postgres.Sql.{
  Row, Assignment, Table, Database, DatabaseLaws, Updates, Updated, Selects, Answer, answered,
  failed, row_to_record, row_at, assign_all, rows_of, matches,
}
use corrobo.Postgres.Operations.{
  get_operation, versioned_write, versioned_write_result, explain, selected, updated, first_record,
}

abbrev pub record_of : Option Row → Option OperationRecord
record_of none = none
record_of (some row) = some (row_to_record row)

abbrev pub records_of_table : Table → Records
records_of_table table id = record_of (table id)

pub record_of-row_at :
    (id : String) (row : Row) (table : Table)
    → records_of_table (row_at id row table)
      ≡ store_at id (row_to_record row) (records_of_table table)
unfolding row_at store_at
record_of-row_at id row table = fun_ext λ k. ground arith

module _ {S : Type 0} (db : Database S) where
  pub first_record-rows_of : (o : Option Row) → first_record db (rows_of o) ≡ record_of o
  first_record-rows_of none = refl
  first_record-rows_of (some row) = refl

module _ {S : Type 0} (db : Database S) (laws : DatabaseLaws db) where
  abbrev pub view : S → Records
  view s = records_of_table (laws.table s)

  selected-ReadsRecord :
      (id : String) (s : S) (o : Answer (List Row) × S)
      → Selects laws.table id s o
      → ReadsRecord view id s (selected db o)
  selected-ReadsRecord id s (failed e, s') same = ap records_of_table same
  selected-ReadsRecord id s (answered rows, s') (found, same) =
      (rw (found, first_record-rows_of db (laws.table s id)) refl, ap records_of_table same)

  pub get_operation-ReadsRecord :
      (id : String) (s : S) → ReadsRecord view id s (get_operation db id s)
  unfolding get_operation
  get_operation-ReadsRecord id s = selected-ReadsRecord id s _ (laws.select_lem id s)

  -- No explanation writes.
  explain_throws :
      (id : String) (v : ℕ) (otherwise : Fault) (s : S) (o : Outcome (Option OperationRecord) × S)
      → ReadsRecord view id s o
      → (f : Fault) × (s' : S) × (explain db id v otherwise o ≡ (thrown f, s')) × (view s' ≡ view s)
  explain_throws id v otherwise s (thrown f, s') same = (f, s', refl, same)
  explain_throws id v otherwise s (ok none, s') (found, same) = (_, s', refl, same)
  explain_throws id v otherwise s (ok (some r), s') (found, same) =
      elim (Bool-cases (r.version == v)) [
        | inl e ↦ rw e (_, s', refl, same)
        | inr e ↦ rw e (_, s', refl, same)
      ]

  matches_version :
      {v : ℕ} (nonempty : Bool) (row : Row)
      → matches v nonempty row ≡ true
      → (row_to_record row).version ≡ v
  unfolding row_to_record
  matches_version nonempty row match = ground arith

  Updated-Wrote :
      (sets : List Assignment) (id : String) (v : ℕ) (nonempty : Bool)
      (change : OperationRecord → OperationRecord) (s s' : S) (row : Row)
      → ((t : ℕ) (row : Row)
          → row_to_record (assign_all t sets row) ≡ stamped t (change (row_to_record row)))
      → Updated laws.table sets id v nonempty s s' row
      → Wrote view id v change s s' (row_to_record row)
  Updated-Wrote sets id v nonempty change s s' row makes (old, t, found, match, made, same) = (
    row_to_record old,
    t,
    rw found refl,
    matches_version nonempty old match,
    rw made (makes t old),
    rw same (record_of-row_at id row (laws.table s)),
  )

  versioned_write_result-MayWrite :
      (id : String) (v : ℕ) (otherwise : Fault) (change : OperationRecord → OperationRecord)
      (s s' : S)
      → view s' ≡ view s
      → MayWrite view id v change s (versioned_write_result db id v otherwise [] s')
  unfolding versioned_write_result
  versioned_write_result-MayWrite id v otherwise change s s' same =
      let (f, t, threw, kept) =
        explain_throws id v otherwise s' _ (get_operation-ReadsRecord id s') in
      rw threw (inl (kept ∙ same))

  -- What an UPDATE has done, in terms of records, if its assignments make `change`.
  updated-MayWrite :
      (sets : List Assignment) (id : String) (v : ℕ) (nonempty : Bool) (otherwise : Fault)
      (change : OperationRecord → OperationRecord) (s : S)
      → ((t : ℕ) (row : Row)
          → row_to_record (assign_all t sets row) ≡ stamped t (change (row_to_record row)))
      → (o : Answer (List Row) × S) → Updates laws.table sets id v nonempty s o
      → MayWrite view id v change s (updated db id v otherwise o)
  unfolding versioned_write_result
  updated-MayWrite sets id v nonempty otherwise change s makes (failed e, s') (inl same) =
      inl (ap records_of_table same)
  updated-MayWrite sets id v nonempty otherwise change s makes (failed e, s') (inr (row, done)) =
      inr (row_to_record row, Updated-Wrote sets id v nonempty change s s' row makes done)
  updated-MayWrite sets id v nonempty otherwise change s makes (answered rows, s')
        (inl (e, missed)) =
      rw e
        (versioned_write_result-MayWrite id v otherwise change s s' (ap records_of_table missed.1))
  updated-MayWrite sets id v nonempty otherwise change s makes (answered rows, s')
        (inr (row, e, done)) =
      rw e (Updated-Wrote sets id v nonempty change s s' row makes done)

  pub versioned_write-MayWrite :
      (sets : List Assignment) (id : String) (v : ℕ) (nonempty : Bool) (otherwise : Fault)
      (change : OperationRecord → OperationRecord) (s : S)
      → ((t : ℕ) (row : Row)
          → row_to_record (assign_all t sets row) ≡ stamped t (change (row_to_record row)))
      → MayWrite view id v change s (versioned_write db sets id v nonempty otherwise s)
  unfolding versioned_write
  versioned_write-MayWrite sets id v nonempty otherwise change s makes =
      updated-MayWrite sets id v nonempty otherwise change s makes _
        (laws.update_lem sets id v nonempty s)
