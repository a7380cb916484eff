-- ===== src/Postgres/Creation.antt =====
-- src/stores/postgres.ts: the store's INSERT, and the look at a taken identity.
use corrobo.Base.{
  ℕ, ◌≡◌, refl, sym, ap, ◌∙◌, List, Option, none, some, get_or, arith, ◌⊎◌, inl, inr,
}
use corrobo.Types.{OperationRecord}
use corrobo.Fault.{Outcome, ok, thrown}
use corrobo.Store.{NewOperationInput, created}
use corrobo.Store.Kept.{Kept, kept_creation, kept_option, kept_option_same}
use corrobo.Store.Laws.{Records, ReadsRecord, MayCreate, Created}
use corrobo.Postgres.Columns.{column_intent, column_reason, as_json}
use corrobo.Postgres.Kept.{bind_some, columns_keep}
use corrobo.Postgres.Sql.{
  Row, NewRow, Database, DatabaseLaws, Inserts, Answer, answered, failed, row_to_record, insert_row,
  unique_violation, other_error, Inserted, fresh_row,
}
use corrobo.Postgres.Operations.{
  inserted, conflicting, now, answer_time, create_operation, sent, new_row, column_option,
}
use corrobo.Postgres.Rows.{records_of_table, record_of-row_at, view, get_operation-ReadsRecord}

module _ {S : Type 0} (db : Database S) (laws : DatabaseLaws db) where
  abbrev seen : S → Records
  seen = view db laws

  abbrev keeps : Kept
  keeps = columns_keep db.reread

  column_option-kept_option :
      {A : Type 0} (f : A → Option A) (o p : Option A)
      → column_option db f o ≡ some p
      → kept_option (λ a. get_or (f a) a) o ≡ p
  column_option-kept_option f none p h = ground arith
  column_option-kept_option f (some a) p h = ground arith

  new_row-kept_creation :
      (t : ℕ) (i : NewOperationInput) (p : NewRow)
      → new_row db i ≡ some p
      → row_to_record (fresh_row t p) ≡ created t (kept_creation keeps i)
  unfolding columns_keep row_to_record fresh_row created
  new_row-kept_creation t i p h =
      let (intent, intent_is, h1) = bind_some (column_intent db.reread i.intent) h in
      let (reason, reason_is, h2) =
        bind_some (column_option db (column_reason db.reread as_json) i.review_reason) h1 in
      cc (
        intent_is,
        column_option-kept_option (column_reason db.reread as_json) i.review_reason reason
            reason_is,
        kept_option_same i.review_episode,
        h2,
      )

  new_row_id : (i : NewOperationInput) (p : NewRow) → new_row db i ≡ some p → p.id ≡ i.identity.id
  unfolding row_to_record fresh_row created
  new_row_id i p e = ap (λ r. r.identity.id) (new_row-kept_creation 0 i p e)

  Inserted-Created :
      (i : NewOperationInput) (p : NewRow) (s s' : S) (row : Row)
      → new_row db i ≡ some p
      → Inserted laws.table p s s' row
      → Created seen (kept_creation keeps i) s s' (row_to_record row)
  Inserted-Created i p s s' row e (t, absent, made, same) =
      let same_id = new_row_id i p e in
      (
        t,
        rw (sym same_id, absent) refl,
        rw made (new_row-kept_creation t i p e),
        rw (same, sym same_id) (record_of-row_at p.id row (laws.table s)),
      )

  Created-later :
      (i : NewOperationInput) (s s' s2 : S)
      → (seen s' ≡ seen s) ⊎ ((r : OperationRecord) × Created seen (kept_creation keeps i) s s' r)
      → seen s2 ≡ seen s'
      → (seen s2 ≡ seen s) ⊎ ((r : OperationRecord) × Created seen (kept_creation keeps i) s s2 r)
  Created-later i s s' s2 (inl before) same = inl (same ∙ before)
  Created-later i s s' s2 (inr (r, done)) same =
      let (t, absent, made, stored) = done in inr (r, (t, absent, made, same ∙ stored))

  conflicting-MayCreate :
      (i : NewOperationInput) (s s' : S)
      → (seen s' ≡ seen s) ⊎ ((r : OperationRecord) × Created seen (kept_creation keeps i) s s' r)
      → (o : Outcome (Option OperationRecord) × S) → ReadsRecord seen i.identity.id s' o
      → MayCreate seen (kept_creation keeps i) s (conflicting db i.identity.id o)
  conflicting-MayCreate i s s' before (thrown f, s2) same = Created-later i s s' s2 before same
  conflicting-MayCreate i s s' before (ok found, s2) (_, same) = Created-later i s s' s2 before same

  inserted-MayCreate :
      (i : NewOperationInput) (p : NewRow) (s : S) (o : Answer (List Row) × S)
      → new_row db i ≡ some p
      → Inserts laws.table p s o
      → MayCreate seen (kept_creation keeps i) s (inserted db i.identity.id o)
  inserted-MayCreate i p s (answered rows, s') e (row, is, done) =
      rw is (Inserted-Created i p s s' row e done)
  inserted-MayCreate i p s (failed (other_error x), s') e (inl same) =
      inl (ap records_of_table same)
  inserted-MayCreate i p s (failed (other_error x), s') e (inr (row, done)) =
      inr (row_to_record row, Inserted-Created i p s s' row e done)
  inserted-MayCreate i p s (failed unique_violation, s') e (inl same) =
      conflicting-MayCreate i s s' (inl (ap records_of_table same)) _
        (get_operation-ReadsRecord db laws i.identity.id s')
  inserted-MayCreate i p s (failed unique_violation, s') e (inr (row, done)) =
      conflicting-MayCreate i s s' (inr (row_to_record row, Inserted-Created i p s s' row e done)) _
        (get_operation-ReadsRecord db laws i.identity.id s')

  sent-MayCreate :
      (o : Option NewRow) (i : NewOperationInput) (write : NewRow → S → Outcome OperationRecord × S)
      (s : S)
      → ((p : NewRow) → o ≡ some p → MayCreate seen i s (write p s))
      → MayCreate seen i s (sent db o write s)
  sent-MayCreate none i write s each = inl refl
  sent-MayCreate (some p) i write s each = each p refl

  pub create_operation-MayCreate :
      (now : ℕ) (i : NewOperationInput) (s : S)
      → MayCreate seen (kept_creation keeps i) s (create_operation db now i s)
  unfolding create_operation
  create_operation-MayCreate now i s =
      sent-MayCreate (new_row db i) (kept_creation keeps i)
        (λ p s. inserted db i.identity.id (db.query (insert_row p) s)) s
        λ p e. inserted-MayCreate i p s _ e (laws.insert_lem p s)

  answered_keeps :
      (s : S) (o : Answer ℕ × S) → seen o.1 ≡ seen s → seen (answer_time db o).1 ≡ seen s
  answered_keeps s (failed e, s') same = same
  answered_keeps s (answered t, s') same = same

  pub now_keeps : (s : S) → seen (now db s).1 ≡ seen s
  unfolding now
  now_keeps s = answered_keeps s _ (ap records_of_table (laws.clock_timestamp_lem s))
