-- ===== src/Postgres/Writes.antt =====
-- src/stores/postgres.ts: the store's UPDATEs as writes of the interface.
use corrobo.Base.{
  ℕ, ◌≡◌, refl, ap, ◌∙◌, String, true, false, List, [], Option, none, some, get_or, arith, inl,
}
use corrobo.Types.{
  OperationRecord, AttemptRecord, OperationStatus, ReservedAttemptInput, ReasonCode, BlockingCheck,
  RecordedReview, ReviewEpisode,
}
use corrobo.Fault.{Outcome, no_attempt}
use corrobo.Store.{
  OperationUpdate, Patch, keep, clear, put, patched, status_of, stamped, reserve_change,
  append_change, latest_change, operation_change, status_change,
}
use corrobo.Store.Kept.{Kept, kept_update, kept_patch, kept_patch_same}
use corrobo.Store.Laws.{Records, MayWrite}
use corrobo.Postgres.Columns.{
  column_attempt, column_reservation, column_reason, column_block, as_json,
}
use corrobo.Postgres.Kept.{bind_some, columns_keep, kept_reservation, kept_attempt}
use corrobo.Postgres.Sql.{
  Row, Assignment, Database, DatabaseLaws, row_to_record, assign_all, set_review_reason,
  set_blocked_by, set_review, set_review_episode,
}
use corrobo.Postgres.Operations.{
  versioned_write, now, set_status, reserve_attempt, append_attempt, update_latest_attempt,
  update_operation, sent, sets_of, reservation_sets, append_sets, latest_sets, status_sets,
  store_bug, column_update, column_patch, item, status_item,
}
use corrobo.Postgres.Rows.{view, versioned_write-MayWrite}

module _ (t : ℕ) (row : Row) (rest : List Assignment) where
  status_item_lem :
      (o : Option OperationStatus)
      → assign_all t (status_item o rest) row
        ≡ assign_all t rest (record row { status = status_of o row.status })
  unfolding assign_all
  status_item_lem none = refl
  status_item_lem (some x) = refl

  item-set_review_reason :
      (p : Patch ReasonCode)
      → assign_all t (item set_review_reason p rest) row
        ≡ assign_all t rest (record row { review_reason = patched p row.review_reason })
  unfolding assign_all
  item-set_review_reason keep = refl
  item-set_review_reason clear = refl
  item-set_review_reason (put r) = refl

  item-set_blocked_by :
      (p : Patch BlockingCheck)
      → assign_all t (item set_blocked_by p rest) row
        ≡ assign_all t rest (record row { blocked_by = patched p row.blocked_by })
  unfolding assign_all
  item-set_blocked_by keep = refl
  item-set_blocked_by clear = refl
  item-set_blocked_by (put r) = refl

  item-set_review :
      (p : Patch RecordedReview)
      → assign_all t (item set_review p rest) row
        ≡ assign_all t rest (record row { review = patched p row.review })
  unfolding assign_all
  item-set_review keep = refl
  item-set_review clear = refl
  item-set_review (put r) = refl

  item-set_review_episode :
      (p : Patch ReviewEpisode)
      → assign_all t (item set_review_episode p rest) row
        ≡ assign_all t rest (record row { review_episode = patched p row.review_episode })
  unfolding assign_all
  item-set_review_episode keep = refl
  item-set_review_episode clear = refl
  item-set_review_episode (put r) = refl

sets_of-operation_change :
    (u : OperationUpdate) (t : ℕ) (row : Row)
    → row_to_record (assign_all t (sets_of u) row)
      ≡ stamped t (operation_change u (row_to_record row))
unfolding assign_all row_to_record operation_change stamped
sets_of-operation_change u t row = ap row_to_record (
    status_item_lem t _ _ u.status
    ∙ item-set_review_reason t _ _ u.review_reason
    ∙ item-set_blocked_by t _ _ u.blocked_by
    ∙ item-set_review t _ _ u.review
    ∙ item-set_review_episode t _ [] u.review_episode)

module _ {S : Type 0} (db : Database S) (laws : DatabaseLaws db) where
  abbrev seen : S → Records
  seen = view db laws

  sent-MayWrite :
      {A : Type 0} (o : Option A) (a : A) (id : String) (v : ℕ)
      (change : A → OperationRecord → OperationRecord) (write : A → S → Outcome OperationRecord × S)
      (s : S)
      → ((b : A) → MayWrite seen id v (change b) s (write b s))
      → MayWrite seen id v (change (get_or o a)) s (sent db o write s)
  sent-MayWrite none a id v change write s each = inl refl
  sent-MayWrite (some b) a id v change write s each = each b

  abbrev keeps : Kept
  keeps = columns_keep db.reread

  pub set_status-MayWrite :
      (now : ℕ) (id : String) (status : OperationStatus) (v : ℕ) (s : S)
      → MayWrite seen id v (status_change status) s (set_status db now id status v s)
  unfolding set_status assign_all row_to_record status_change stamped
  set_status-MayWrite now id status v s =
      versioned_write-MayWrite db laws (status_sets status) id v false store_bug
        (status_change status) s (λ t row. refl)

  pub reserve_attempt-MayWrite :
      (now : ℕ) (id : String) (i : ReservedAttemptInput) (v : ℕ) (s : S)
      → MayWrite seen id v
          (reserve_change (keeps.reservation i))
          s
          (reserve_attempt db now id i v s)
  unfolding reserve_attempt assign_all row_to_record reserve_change stamped columns_keep
      kept_reservation
  reserve_attempt-MayWrite now id i v s =
      sent-MayWrite (column_reservation db.reread i) i id v reserve_change
        (λ j. versioned_write db (reservation_sets j) id v false store_bug) s
        λ j.
          versioned_write-MayWrite db laws (reservation_sets j) id v false store_bug
            (reserve_change j) s (λ t row. refl)

  pub append_attempt-MayWrite :
      (now : ℕ) (id : String) (a : AttemptRecord) (status : OperationStatus) (v : ℕ) (s : S)
      → MayWrite seen id v
          (append_change (keeps.attempt a) status)
          s
          (append_attempt db now id a status v s)
  unfolding append_attempt assign_all row_to_record append_change stamped columns_keep kept_attempt
  append_attempt-MayWrite now id a status v s =
      sent-MayWrite (column_attempt db.reread a) a id v (λ b. append_change b status)
        (λ b. versioned_write db (append_sets b status) id v false store_bug) s
        λ b.
          versioned_write-MayWrite db laws (append_sets b status) id v false store_bug
            (append_change b status) s (λ t row. refl)

  pub update_latest_attempt-MayWrite :
      (now : ℕ) (id : String) (a : AttemptRecord) (status : OperationStatus) (v : ℕ) (s : S)
      → MayWrite seen id v
          (latest_change (keeps.attempt a) status)
          s
          (update_latest_attempt db now id a status v s)
  unfolding update_latest_attempt assign_all row_to_record latest_change stamped columns_keep
      kept_attempt
  update_latest_attempt-MayWrite now id a status v s =
      sent-MayWrite (column_attempt db.reread a) a id v (λ b. latest_change b status)
        (λ b. versioned_write db (latest_sets b status) id v true (no_attempt id)) s
        λ b.
          versioned_write-MayWrite db laws (latest_sets b status) id v true (no_attempt id)
            (latest_change b status) s (λ t row. refl)

  column_patch-kept_patch :
      {A : Type 0} (f : A → Option A) (p q : Patch A)
      → column_patch db f p ≡ some q
      → kept_patch (λ a. get_or (f a) a) p ≡ q
  column_patch-kept_patch f keep q h = ground arith
  column_patch-kept_patch f clear q h = ground arith
  column_patch-kept_patch f (put a) q h = ground arith

  column_update-kept_update :
      (u w : OperationUpdate) → column_update db u ≡ some w → kept_update keeps u ≡ w
  unfolding columns_keep
  column_update-kept_update u w h =
      let (p, p_is, h1) =
        bind_some (column_patch db (column_reason db.reread as_json) u.review_reason) h in
      let (q, q_is, h2) =
        bind_some (column_patch db (column_block db.reread as_json) u.blocked_by) h1 in
      cc (
        column_patch-kept_patch (column_reason db.reread as_json) u.review_reason p p_is,
        column_patch-kept_patch (column_block db.reread as_json) u.blocked_by q q_is,
        kept_patch_same u.review,
        kept_patch_same u.review_episode,
        h2,
      )

  sent_checked-MayWrite :
      {A : Type 0} (o : Option A) (id : String) (v : ℕ) (change : OperationRecord → OperationRecord)
      (write : A → S → Outcome OperationRecord × S) (s : S)
      → ((b : A) → o ≡ some b → MayWrite seen id v change s (write b s))
      → MayWrite seen id v change s (sent db o write s)
  sent_checked-MayWrite none id v change write s each = inl refl
  sent_checked-MayWrite (some b) id v change write s each = each b refl

  pub update_operation-MayWrite :
      (now : ℕ) (id : String) (u : OperationUpdate) (v : ℕ) (s : S)
      → MayWrite seen id v
          (operation_change (kept_update keeps u))
          s
          (update_operation db now id u v s)
  unfolding update_operation
  update_operation-MayWrite now id u v s =
      sent_checked-MayWrite (column_update db u) id v (operation_change (kept_update keeps u))
        (λ w. versioned_write db (sets_of w) id v false store_bug) s
        λ w e. rw (column_update-kept_update u w e) (
          versioned_write-MayWrite db laws (sets_of w) id v false store_bug (operation_change w) s
            (sets_of-operation_change w))
