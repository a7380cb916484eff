-- ===== src/Postgres/Lock.antt =====
-- src/stores/postgres.ts: `tryAcquireLock`, which checks out a connection and takes an advisory lock on
-- it, and the `release` of the lock that it returns. A connection is told by a number.
use corrobo.Base.{
  ℕ, suc, ◌-◌, ◌≤◌, ◌≡◌, ◌≢◌, String, Bool, true, false, Option, none, some, List, [], ◌∷◌,
  if◌then◌else◌,
}
use corrobo.Fault.{Outcome, ok, thrown}
use corrobo.Postgres.Key.{ℤ, advisory_lock_key}
use corrobo.Postgres.Sql.{SqlError, Answer, answered, failed}
use corrobo.Postgres.Operations.{fault_of}

-- The pool of connections, and what a checked-out one is asked.
pub record Pool (S : Type 0) : Type 0 where
  pub connect : S → Answer ℕ × S
  -- client.on("error", ...), client.off("error", ...)
  pub listen : ℕ → S → S
  pub unlisten : ℕ → S → S
  -- SELECT pg_try_advisory_lock($1) AS locked
  pub try_advisory_lock : ℕ → ℤ → S → Answer (List Bool) × S
  -- SELECT pg_advisory_unlock($1)
  pub advisory_unlock : ℕ → ℤ → S → Answer (List Bool) × S
  -- client.release(err): with an error, the connection is destroyed
  pub give_back : ℕ → Option SqlError → S → S
  pub sha256 : String → List ℕ

pub record Lock : Type 0 where
  pub client : ℕ
  pub key : ℤ
  pub released : Bool

abbrev pub is_locked : List Bool → Bool
is_locked [] = false
is_locked (b ∷ _) = b

module _ {S : Type 0} (pool : Pool S) where
  -- `done(err)`
  unfoldable pub finish : ℕ → Option SqlError → S → S
  finish client err s = pool.give_back client err (pool.unlisten client s)

  abbrev pub lock_answer : ℕ → ℤ → Answer (List Bool) × S → Outcome (Option Lock) × S
  lock_answer client key (failed e, s) = (thrown (fault_of e), finish client (some e) s)
  lock_answer client key (answered rows, s) =
      if is_locked rows
      then (ok (some (record { client = client; key = key; released = false })), s)
      else (ok none, finish client none s)

  abbrev pub connected : String → Answer ℕ × S → Outcome (Option Lock) × S
  connected id (failed e, s) = (thrown (fault_of e), s)
  connected id (answered client, s) =
      let key = advisory_lock_key pool.sha256 id in
      lock_answer client key (pool.try_advisory_lock client key (pool.listen client s))

  -- `tryAcquireLock`
  unfoldable pub try_acquire : String → S → Outcome (Option Lock) × S
  unfolding finish advisory_lock_key
  try_acquire id s = connected id (pool.connect s)

  abbrev pub unlock_answer : ℕ → Answer (List Bool) × S → S
  unlock_answer client (failed e, s) = finish client (some e) s
  unlock_answer client (answered _, s) = finish client none s

  -- The lock's `release`
  unfoldable pub release_lock : Lock → S → Lock × S
  unfolding finish
  release_lock lock s = if lock.released then (lock, s) else (
    record lock { released = true },
    unlock_answer lock.client (pool.advisory_unlock lock.client lock.key s),
  )

-- Documented behaviour of the pool and of advisory locks, for the number of connections in use and
-- how often the session of a connection holds a key. The end of a session frees what it holds.
module _ {S : Type 0} (in_use : S → ℕ) (holds : S → ℕ → ℤ → ℕ) where
  -- Other connections hold what they held.
  abbrev pub OthersHold : ℕ → S → S → Type 0
  OthersHold c s s' = (d : ℕ) (k : ℤ) → d ≢ c → holds s' d k ≡ holds s d k

  abbrev pub Same : S → S → Type 0
  Same s s' = (in_use s' ≡ in_use s) × (holds s' ≡ holds s)

  abbrev pub Connects : S → Answer ℕ × S → Type 0
  Connects s (failed _, s') = Same s s'
  Connects s (answered _, s') = (in_use s' ≡ suc (in_use s)) × (holds s' ≡ holds s)

  abbrev pub Locked : Bool → ℕ → ℤ → S → S → Type 0
  Locked true c k s s' = (holds s' c k ≡ suc (holds s c k)) × OthersHold c s s'
  Locked false c k s s' = holds s' ≡ holds s

  -- A failed attempt may have taken the lock.
  abbrev pub Tries : ℕ → ℤ → S → Answer (List Bool) × S → Type 0
  Tries c k s (failed _, s') = (in_use s' ≡ in_use s) × OthersHold c s s'
  Tries c k s (answered rows, s') = (in_use s' ≡ in_use s) × Locked (is_locked rows) c k s s'

  abbrev pub Unlocks : ℕ → ℤ → S → Answer (List Bool) × S → Type 0
  Unlocks c k s (failed _, s') = (in_use s' ≡ in_use s) × OthersHold c s s'
  Unlocks c k s (answered _, s') =
      (in_use s' ≡ in_use s) × (holds s' c k ≡ holds s c k - 1) × OthersHold c s s'

  abbrev pub GivesBack : ℕ → Option SqlError → S → S → Type 0
  GivesBack c none s s' = (in_use s' ≡ in_use s - 1) × (holds s' ≡ holds s)
  GivesBack c (some _) s s' =
      (in_use s' ≡ in_use s - 1) × ((k : ℤ) → holds s' c k ≡ 0) × OthersHold c s s'

  -- No connection holds a key that it did not hold.
  abbrev pub HoldsNoMore : S → S → Type 0
  HoldsNoMore s s' = (c : ℕ) (k : ℤ) → holds s' c k ≤ holds s c k

  abbrev pub Acquires : S → Outcome (Option Lock) × S → Type 0
  Acquires s (ok (some lock), s') =
      (lock.released ≡ false)
      × (in_use s' ≡ suc (in_use s))
      × (holds s' lock.client lock.key ≡ suc (holds s lock.client lock.key))
      × OthersHold lock.client s s'
  Acquires s (ok none, s') = (in_use s' ≡ in_use s) × HoldsNoMore s s'
  Acquires s (thrown _, s') = (in_use s' ≡ in_use s) × HoldsNoMore s s'

pub record PoolLaws {S : Type 0} (pool : Pool S) : Type 0 where
  pub in_use : S → ℕ
  pub holds : S → ℕ → ℤ → ℕ
  pub connect_lem : (s : S) → Connects in_use holds s (pool.connect s)
  pub listen_lem : (c : ℕ) (s : S) → Same in_use holds s (pool.listen c s)
  pub unlisten_lem : (c : ℕ) (s : S) → Same in_use holds s (pool.unlisten c s)
  pub try_advisory_lock_lem :
      (c : ℕ) (k : ℤ) (s : S) → Tries in_use holds c k s (pool.try_advisory_lock c k s)
  pub advisory_unlock_lem :
      (c : ℕ) (k : ℤ) (s : S) → Unlocks in_use holds c k s (pool.advisory_unlock c k s)
  pub give_back_lem :
      (c : ℕ) (err : Option SqlError) (s : S)
      → GivesBack in_use holds c err s (pool.give_back c err s)
