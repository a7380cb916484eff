-- ===== src/Postgres/Session.antt =====
-- src/stores/postgres.ts: `PostgresStore` as a value of the store interface. The state of the process
-- adds the locks that it has taken, since `release` is a function of the lock.
use corrobo.Base.{
  String, Bool, true, false, Option, none, some, List, [], ◌∷◌, if◌then◌else◌, str_eq,
}
use corrobo.Fault.{Outcome, ok, thrown}
use corrobo.Store.{EffectStore}
use corrobo.Postgres.Sql.{Database}
use corrobo.Postgres.Operations.{
  get_operation, create_operation, reserve_attempt, append_attempt, update_latest_attempt,
  update_operation, set_status, now,
}
use corrobo.Postgres.Lock.{Pool, Lock, try_acquire, release_lock}

pub record Session (S : Type 0) : Type 0 where
  pub state : S
  pub locks : List (String × Lock)

abbrev pub within : {S A : Type 0} → List (String × Lock) → A × S → A × Session S
within locks (a, s) = (a, record { state = s; locks = locks })

abbrev pub taken :
    {S : Type 0}
    → String
    → List (String × Lock)
    → Outcome (Option Lock) × S
    → Outcome Bool × Session S
taken id locks (thrown f, s) = (thrown f, record { state = s; locks = locks })
taken id locks (ok none, s) = (ok false, record { state = s; locks = locks })
taken id locks (ok (some lock), s) = (ok true, record { state = s; locks = (id, lock) ∷ locks })

abbrev pub released : {S : Type 0} → List (String × Lock) → Lock × S → Session S
released locks (lock, s) = record { state = s; locks = locks }

module _ {S : Type 0} (pool : Pool S) where
  unfoldable pub try_acquire_lock : String → Session S → Outcome Bool × Session S
  unfolding try_acquire
  try_acquire_lock id s = taken id s.locks (try_acquire pool id s.state)

  -- The newest lock of the identity is released and dropped.
  unfoldable pub release_newest : String → List (String × Lock) → S → Session S
  unfolding release_lock
  release_newest id [] s = record { state = s; locks = [] }
  release_newest id ((k, lock) ∷ locks) s =
      let rest = release_newest id locks s in
      if str_eq k id
      then released locks (release_lock pool lock s)
      else record rest { locks = (k, lock) ∷ rest.locks }

  unfoldable pub release : String → Session S → Session S
  unfolding release_newest
  release id s = release_newest id s.locks s.state

module _ {S : Type 0} (db : Database S) (pool : Pool S) where
  unfoldable pub postgres_store : EffectStore (Session S)
  unfolding get_operation create_operation reserve_attempt append_attempt update_latest_attempt
      update_operation set_status now try_acquire_lock release
  postgres_store = record {
    coordinated = record {
      get_operation = λ id s. within s.locks (get_operation db id s.state);
      create_operation = λ t i s. within s.locks (create_operation db t i s.state);
      reserve_attempt = λ t id a v s. within s.locks (reserve_attempt db t id a v s.state);
      append_attempt = λ t id a st v s. within s.locks (append_attempt db t id a st v s.state);
      update_latest_attempt =
          λ t id a st v s. within s.locks (update_latest_attempt db t id a st v s.state);
      update_operation = λ t id u v s. within s.locks (update_operation db t id u v s.state);
      set_status = λ t id st v s. within s.locks (set_status db t id st v s.state);
      now = some (λ _ s. within s.locks (now db s.state));
    };
    try_acquire_lock = try_acquire_lock pool;
    release = release pool;
  }
