-- ===== src/Postgres/Operations.antt =====
-- src/stores/postgres.ts: the store's operations as queries. A value that `JSON.stringify` throws at
-- fails the operation before anything is sent.
use corrobo.Base.{
  ℕ, ◌==◌, String, Bool, true, false, Option, none, some, List, [], ◌∷◌, if◌then◌else◌,
}
use corrobo.Value.{Value}
use corrobo.Types.{OperationRecord, OperationStatus, AttemptRecord, reserved, ReservedAttemptInput}
use corrobo.Fault.{
  Fault, Outcome, ok, thrown, store_conflict, no_operation, no_attempt, store_failure,
}
use corrobo.Store.{NewOperationInput, Patch, keep, clear, put, OperationUpdate, CoordinatedStore}
use corrobo.Postgres.Columns.{
  ◌>>=◌, as_json, column_attempt, column_reservation, column_intent, column_reason, column_block,
}
use corrobo.Postgres.Sql.{
  Row, NewRow, Assignment, append_attempts, set_latest, set_review_reason, set_blocked_by,
  set_review, set_review_episode, touch, bump_version, select_row, insert_row, update_row, SqlError,
  Answer, unique_violation, other_error, answered, failed, Database, row_to_record,
}

-- `isUniqueViolation`
abbrev is_unique_violation : SqlError → Bool
is_unique_violation unique_violation = true
is_unique_violation (other_error _) = false

abbrev pub fault_of : SqlError → Fault
fault_of unique_violation = store_failure Value.undefined
fault_of (other_error v) = store_failure v

-- What `JSON.stringify` throws.
abbrev pub not_json : Fault
not_json = store_failure (Value.error "not JSON")

abbrev pub store_bug : Fault
store_bug = store_failure (Value.error "a write matched no row")

abbrev pub placeholder : ReservedAttemptInput → AttemptRecord
placeholder i = reserved (record {
  attempt_number = i.attempt_number;
  started_at = i.started_at;
  updated_at = i.started_at;
  check = i.check;
  max_in_flight_ms = i.max_in_flight_ms;
})

abbrev pub reservation_sets : ReservedAttemptInput → List Assignment
reservation_sets i = append_attempts (placeholder i) ∷ touch ∷ bump_version ∷ []

abbrev pub append_sets : AttemptRecord → OperationStatus → List Assignment
append_sets a status = append_attempts a ∷ Assignment.set_status status ∷ touch ∷ bump_version ∷ []

abbrev pub latest_sets : AttemptRecord → OperationStatus → List Assignment
latest_sets a status = set_latest a ∷ Assignment.set_status status ∷ touch ∷ bump_version ∷ []

abbrev pub status_sets : OperationStatus → List Assignment
status_sets status = Assignment.set_status status ∷ touch ∷ bump_version ∷ []

abbrev pub item :
    {A : Type 0} → (Option A → Assignment) → Patch A → List Assignment → List Assignment
item f keep sets = sets
item f clear sets = f none ∷ sets
item f (put a) sets = f (some a) ∷ sets

abbrev pub status_item : Option OperationStatus → List Assignment → List Assignment
status_item none sets = sets
status_item (some st) sets = Assignment.set_status st ∷ sets

-- The items after SET: the columns whose fields are present.
abbrev pub sets_of : OperationUpdate → List Assignment
sets_of u =
    touch
    ∷ bump_version
    ∷ status_item u.status (
        item set_review_reason u.review_reason (
          item set_blocked_by u.blocked_by
            (item set_review u.review (item set_review_episode u.review_episode []))))

module _ {S : Type 0} (db : Database S) where
  -- An operation on what `JSON.stringify` gives, if it does not throw.
  abbrev pub sent :
      {A : Type 0}
      → Option A
      → (A → S → Outcome OperationRecord × S)
      → S
      → Outcome OperationRecord × S
  sent none f s = (thrown not_json, s)
  sent (some a) f s = f a s

  abbrev pub first_record : List Row → Option OperationRecord
  first_record [] = none
  first_record (row ∷ _) = some (row_to_record row)

  abbrev pub selected : Answer (List Row) × S → Outcome (Option OperationRecord) × S
  selected (failed e, s') = (thrown (fault_of e), s')
  selected (answered rows, s') = (ok (first_record rows), s')

  -- `getOperationImpl`
  unfoldable pub get_operation : String → S → Outcome (Option OperationRecord) × S
  unfolding row_to_record
  get_operation id s = selected (db.query (select_row id) s)

  -- Why no row has matched.
  abbrev pub explain :
      String → ℕ → Fault → Outcome (Option OperationRecord) × S → Outcome OperationRecord × S
  explain id expected otherwise (thrown f, s') = (thrown f, s')
  explain id expected otherwise (ok none, s') = (thrown (no_operation id), s')
  explain id expected otherwise (ok (some current), s') =
      if current.version == expected
      then (thrown otherwise, s')
      else (thrown (store_conflict id (some expected) current.version), s')

  -- `versionedWriteResult` of the rows that a statement returned
  unfoldable pub versioned_write_result :
      String → ℕ → Fault → List Row → S → Outcome OperationRecord × S
  unfolding get_operation row_to_record
  versioned_write_result id expected otherwise (row ∷ _) s = (ok (row_to_record row), s)
  versioned_write_result id expected otherwise [] s =
      explain id expected otherwise (get_operation id s)

  abbrev pub updated : String → ℕ → Fault → Answer (List Row) × S → Outcome OperationRecord × S
  updated id v otherwise (failed e, s') = (thrown (fault_of e), s')
  updated id v otherwise (answered rows, s') = versioned_write_result id v otherwise rows s'

  -- An UPDATE and what becomes of its answer.
  unfoldable pub versioned_write :
      List Assignment → String → ℕ → Bool → Fault → S → Outcome OperationRecord × S
  unfolding versioned_write_result
  versioned_write sets id v nonempty otherwise s =
      updated id v otherwise (db.query (update_row sets id v nonempty) s)

  -- `JSON.stringify` of an optional value
  abbrev pub column_option : {A B : Type 0} → (A → Option B) → Option A → Option (Option B)
  column_option f none = some none
  column_option f (some a) = f a >>= λ b. some (some b)

  abbrev pub new_row : NewOperationInput → Option NewRow
  new_row i = column_intent db.reread i.intent >>= λ intent.
      column_option (column_reason db.reread as_json) i.review_reason >>= λ reason. some (record {
        id = i.identity.id;
        operation_type = i.identity.operation_type;
        intent = intent;
        status = i.status;
        review_reason = reason;
        review_episode = i.review_episode;
      })

  abbrev pub version_or_zero : Option OperationRecord → ℕ
  version_or_zero none = 0
  version_or_zero (some r) = r.version

  abbrev pub conflicting :
      String → Outcome (Option OperationRecord) × S → Outcome OperationRecord × S
  conflicting id (thrown f, s) = (thrown f, s)
  conflicting id (ok existing, s) = (thrown (store_conflict id none (version_or_zero existing)), s)

  abbrev pub inserted : String → Answer (List Row) × S → Outcome OperationRecord × S
  inserted id (answered [], s) = (thrown (store_failure Value.undefined), s)
  inserted id (answered (row ∷ _), s) = (ok (row_to_record row), s)
  inserted id (failed e, s) =
      if is_unique_violation e
      then conflicting id (get_operation id s)
      else (thrown (fault_of e), s)

  -- `createOperationImpl`. A failed insert is looked into: the identity may be taken.
  unfoldable pub create_operation : ℕ → NewOperationInput → S → Outcome OperationRecord × S
  unfolding get_operation column_intent column_reason row_to_record
  create_operation now i =
      sent (new_row i) (λ p s. inserted i.identity.id (db.query (insert_row p) s))

  -- `reserveAttemptImpl`
  unfoldable pub reserve_attempt :
      ℕ → String → ReservedAttemptInput → ℕ → S → Outcome OperationRecord × S
  unfolding versioned_write column_reservation
  reserve_attempt now id i v =
      sent (column_reservation db.reread i)
        λ j. versioned_write (reservation_sets j) id v false store_bug

  -- `appendAttemptImpl`
  unfoldable pub append_attempt :
      ℕ → String → AttemptRecord → OperationStatus → ℕ → S → Outcome OperationRecord × S
  unfolding versioned_write column_attempt
  append_attempt now id a status v =
      sent (column_attempt db.reread a)
        λ b. versioned_write (append_sets b status) id v false store_bug

  -- `updateLatestAttemptImpl`
  unfoldable pub update_latest_attempt :
      ℕ → String → AttemptRecord → OperationStatus → ℕ → S → Outcome OperationRecord × S
  unfolding versioned_write column_attempt
  update_latest_attempt now id a status v =
      sent (column_attempt db.reread a)
        λ b. versioned_write (latest_sets b status) id v true (no_attempt id)

  -- `setStatusImpl`
  unfoldable pub set_status : ℕ → String → OperationStatus → ℕ → S → Outcome OperationRecord × S
  unfolding versioned_write
  set_status now id status v s = versioned_write (status_sets status) id v false store_bug s

  -- `null` clears a column; an absent field has no assignment.
  abbrev pub column_patch : {A : Type 0} → (A → Option A) → Patch A → Option (Patch A)
  column_patch f keep = some keep
  column_patch f clear = some clear
  column_patch f (put a) = f a >>= λ b. some (put b)

  abbrev pub column_update : OperationUpdate → Option OperationUpdate
  column_update u = column_patch (column_reason db.reread as_json) u.review_reason >>= λ reason.
      column_patch (column_block db.reread as_json) u.blocked_by >>= λ block.
      some (record u { review_reason = reason; blocked_by = block })

  -- `updateOperationImpl`. A review and an episode are texts and times, which JSON keeps.
  unfoldable pub update_operation :
      ℕ → String → OperationUpdate → ℕ → S → Outcome OperationRecord × S
  unfolding versioned_write column_reason column_block
  update_operation now id u v =
      sent (column_update u) (λ w. versioned_write (sets_of w) id v false store_bug)

  abbrev pub answer_time : Answer ℕ × S → Outcome ℕ × S
  answer_time (failed e, s') = (thrown (fault_of e), s')
  answer_time (answered t, s') = (ok t, s')

  -- `nowImpl`: the database server's clock
  unfoldable pub now : S → Outcome ℕ × S
  now s = answer_time (db.clock_timestamp s)

  -- `boundStore`, and the methods of the class
  abbrev pub bound_store : CoordinatedStore S
  bound_store = record {
    get_operation = get_operation;
    create_operation = create_operation;
    reserve_attempt = reserve_attempt;
    append_attempt = append_attempt;
    update_latest_attempt = update_latest_attempt;
    update_operation = update_operation;
    set_status = set_status;
    now = some (λ _ s. now s);
  }
