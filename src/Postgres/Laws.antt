-- ===== src/Postgres/Laws.antt =====
-- src/stores/postgres.ts: `PostgresStore` as an implementation of the store interface.
use corrobo.Base.{
  subst, get_or, inl, inr, Bool-cases, ℕ, ◌≡◌, refl, String, Bool, true, false, Option, none, some,
  List, [], ◌∷◌, ◌∙◌, ap, str_eq,
}
use corrobo.Types.{OperationRecord}
use corrobo.Fault.{Outcome, ok, thrown}
use corrobo.Store.{NewOperationInput}
use corrobo.Store.Laws.{Records, ReadsRecord, MayWrite, MayCreate, StoreLaws}
use corrobo.Postgres.Sql.{Database, DatabaseLaws, Answer, answered, failed}
use corrobo.Postgres.Lock.{
  Pool, Lock, finish, try_acquire, release_lock, unlock_answer, lock_answer, connected,
}
use corrobo.Postgres.Kept.{columns_keep}
use corrobo.Postgres.Rows.{view, get_operation-ReadsRecord}
use corrobo.Postgres.Writes.{
  reserve_attempt-MayWrite, append_attempt-MayWrite, update_latest_attempt-MayWrite,
  update_operation-MayWrite, set_status-MayWrite,
}
use corrobo.Postgres.Creation.{create_operation-MayCreate, now_keeps}
use corrobo.Postgres.Sql.{Table, SqlError}
use corrobo.Postgres.Key.{ℤ}
use corrobo.Postgres.Rows.{records_of_table}
use corrobo.Postgres.Session.{
  Session, within, taken, try_acquire_lock, release_newest, postgres_store,
}

-- Connections and locks are not the table's concern.
pub record LeavesTable {S : Type 0} (table : S → Table) (pool : Pool S) : Type 0 where
  pub connect_keeps : (s : S) → table (pool.connect s).1 ≡ table s
  pub listen_keeps : (c : ℕ) (s : S) → table (pool.listen c s) ≡ table s
  pub unlisten_keeps : (c : ℕ) (s : S) → table (pool.unlisten c s) ≡ table s
  pub try_keeps : (c : ℕ) (k : ℤ) (s : S) → table (pool.try_advisory_lock c k s).1 ≡ table s
  pub unlock_keeps : (c : ℕ) (k : ℤ) (s : S) → table (pool.advisory_unlock c k s).1 ≡ table s
  pub give_back_keeps :
      (c : ℕ) (e : Option SqlError) (s : S) → table (pool.give_back c e s) ≡ table s

module _ {S : Type 0} {table : S → Table} (pool : Pool S) (keeps : LeavesTable table pool) where
  finish_keeps : (c : ℕ) (e : Option SqlError) (s : S) → table (finish pool c e s) ≡ table s
  unfolding finish
  finish_keeps c e s = keeps.give_back_keeps c e _ ∙ keeps.unlisten_keeps c s

  lock_answer_keeps :
      (c : ℕ) (k : ℤ) (o : Answer (List Bool) × S) → table (lock_answer pool c k o).1 ≡ table o.1
  lock_answer_keeps c k (failed e, s) = finish_keeps c (some e) s
  lock_answer_keeps c k (answered [], s) = finish_keeps c none s
  lock_answer_keeps c k (answered (false ∷ _), s) = finish_keeps c none s
  lock_answer_keeps c k (answered (true ∷ _), s) = refl

  connected_keeps : (id : String) (o : Answer ℕ × S) → table (connected pool id o).1 ≡ table o.1
  connected_keeps id (failed e, s) = refl
  connected_keeps id (answered c, s) =
      lock_answer_keeps c _ _ ∙ keeps.try_keeps c _ _ ∙ keeps.listen_keeps c s

  taken_keeps :
      (id : String) (locks : List (String × Lock)) (o : Outcome (Option Lock) × S)
      → table (taken id locks o).1.state ≡ table o.1
  taken_keeps id locks (thrown f, s) = refl
  taken_keeps id locks (ok none, s) = refl
  taken_keeps id locks (ok (some lock), s) = refl

  pub try_acquire_lock_keeps :
      (id : String) (s : Session S) → table (try_acquire_lock pool id s).1.state ≡ table s.state
  unfolding try_acquire_lock try_acquire
  try_acquire_lock_keeps id s =
      taken_keeps id s.locks _ ∙ connected_keeps id _ ∙ keeps.connect_keeps s.state

  unlock_answer_keeps :
      (c : ℕ) (o : Answer (List Bool) × S) → table (unlock_answer pool c o) ≡ table o.1
  unlock_answer_keeps c (failed e, s) = finish_keeps c (some e) s
  unlock_answer_keeps c (answered _, s) = finish_keeps c none s

  release_lock_keeps : (l : Lock) (s : S) → table (release_lock pool l s).1 ≡ table s
  unfolding release_lock
  release_lock_keeps l s = elim (Bool-cases l.released) [
    | inl e ↦ rw e refl
    | inr e ↦ rw e (unlock_answer_keeps l.client _ ∙ keeps.unlock_keeps l.client l.key s)
  ]

  pub release_keeps :
      (id : String) (ls : List (String × Lock)) (s : S)
      → table (release_newest pool id ls s).state ≡ table s
  unfolding release_newest
  release_keeps id [] s = refl
  release_keeps id ((k, lock) ∷ ls) s = elim (Bool-cases (str_eq k id)) [
    | inl e ↦ rw e (release_lock_keeps lock s)
    | inr e ↦ rw e (release_keeps id ls s)
  ]

module _ {S : Type 0} (db : Database S) (laws : DatabaseLaws db) where
  abbrev pub session_view : Session S → Records
  session_view s = view db laws s.state

module _ {S : Type 0} (db : Database S) (pool : Pool S) (laws : DatabaseLaws db)
    (keeps : LeavesTable laws.table pool) where
  pub within-ReadsRecord :
      (id : String) (s : Session S) (o : Outcome (Option OperationRecord) × S)
      → ReadsRecord (view db laws) id s.state o
      → ReadsRecord (session_view db laws) id s (within s.locks o)
  within-ReadsRecord id s (ok r, t) h = h
  within-ReadsRecord id s (thrown f, t) h = h

  pub within-MayWrite :
      (id : String) (v : ℕ) (change : OperationRecord → OperationRecord) (s : Session S)
      (o : Outcome OperationRecord × S)
      → MayWrite (view db laws) id v change s.state o
      → MayWrite (session_view db laws) id v change s (within s.locks o)
  within-MayWrite id v change s (ok r, t) h = h
  within-MayWrite id v change s (thrown f, t) h = h

  pub within-MayCreate :
      (i : NewOperationInput) (s : Session S) (o : Outcome OperationRecord × S)
      → MayCreate (view db laws) i s.state o
      → MayCreate (session_view db laws) i s (within s.locks o)
  within-MayCreate i s (ok r, t) h = h
  within-MayCreate i s (thrown f, t) h = h

  pub now_same :
      (read : ℕ → Session S → Outcome ℕ × Session S)
      → (postgres_store db pool).now ≡ some read
      → (n : ℕ) (s : Session S) → session_view db laws (read n s).1 ≡ session_view db laws s
  unfolding postgres_store
  now_same read e n s =
      subst (λ f. session_view db laws (f n s).1 ≡ session_view db laws s)
        (ap (λ o. get_or o read) e) (now_keeps db laws s.state)

  -- A `PostgresStore` keeps the promises of the interface, if the database and the pool do as they are
  -- documented.
  unfoldable pub postgres_laws : StoreLaws (postgres_store db pool)
  unfolding postgres_store
  postgres_laws = record {
    view = session_view db laws;
    kept = columns_keep db.reread;
    get_operation_lem =
        λ id s. within-ReadsRecord id s _ (get_operation-ReadsRecord db laws id s.state);
    create_operation_lem =
        λ t i s. within-MayCreate _ s _ (create_operation-MayCreate db laws t i s.state);
    reserve_attempt_lem = λ t id a v s.
        within-MayWrite id v _ s _ (reserve_attempt-MayWrite db laws t id a v s.state);
    append_attempt_lem = λ t id a st v s.
        within-MayWrite id v _ s _ (append_attempt-MayWrite db laws t id a st v s.state);
    update_latest_attempt_lem = λ t id a st v s.
        within-MayWrite id v _ s _ (update_latest_attempt-MayWrite db laws t id a st v s.state);
    update_operation_lem = λ t id u v s.
        within-MayWrite id v _ s _ (update_operation-MayWrite db laws t id u v s.state);
    set_status_lem =
        λ t id st v s. within-MayWrite id v _ s _ (set_status-MayWrite db laws t id st v s.state);
    try_acquire_lock_lem = λ id s. ap records_of_table (try_acquire_lock_keeps pool keeps id s);
    release_lem = λ id s. ap records_of_table (release_keeps pool keeps id s.locks s.state);
    now_lem = now_same;
  }
