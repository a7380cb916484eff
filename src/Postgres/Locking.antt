-- ===== src/Postgres/Locking.antt =====
-- src/stores/postgres.ts: connections and advisory locks over the life of a lock.
use corrobo.Base.{
  ℕ, suc, ◌-◌, ◌≤◌, ◌≡◌, ◌≢◌, refl, ap, ◌∙◌, String, Bool, true, false, Option, none, some, List,
  [], ◌∷◌, arith, ◌⊎◌, inl, inr, ◌==◌, ==_iff, Bool-cases,
}
use corrobo.Postgres.Key.{ℤ}
use corrobo.Postgres.Sql.{SqlError, Answer, answered, failed}
use corrobo.Postgres.Lock.{
  Pool, Lock, finish, lock_answer, connected, try_acquire, unlock_answer, release_lock, OthersHold,
  Connects, Tries, Unlocks, GivesBack, HoldsNoMore, Acquires, PoolLaws,
}

same_or_other : (d c : ℕ) → (d ≡ c) ⊎ (d ≢ c)
same_or_other d c = elim (Bool-cases (d == c)) [
  | inl e ↦ inl ((==_iff d c).0 e)
  | inr e ↦ inr (λ p. ground arith)
]

module _ {S : Type 0} (pool : Pool S) (laws : PoolLaws pool) where
  finish-GivesBack :
      (c : ℕ) (err : Option SqlError) (s : S)
      → GivesBack laws.in_use laws.holds c err s (finish pool c err s)
  unfolding finish
  finish-GivesBack c none s =
      let (u, h) = laws.unlisten_lem c s in
      let (u2, h2) = laws.give_back_lem c none (pool.unlisten c s) in
      (rw u2 (ap (λ n. n - 1) u), h2 ∙ h)
  finish-GivesBack c (some e) s =
      let (u, h) = laws.unlisten_lem c s in
      let (u2, z, o) = laws.give_back_lem c (some e) (pool.unlisten c s) in
      (rw u2 (ap (λ n. n - 1) u), z, λ d k ne. rw (o d k ne, h) refl)

  -- The connection is given back after a failure, or after a refusal.
  failed-HoldsNoMore :
      (c : ℕ) (e : SqlError) (s s1 s2 : S)
      → laws.in_use s1 ≡ suc (laws.in_use s)
      → laws.holds s1 ≡ laws.holds s
      → laws.in_use s2 ≡ laws.in_use s1
      → OthersHold laws.in_use laws.holds c s1 s2
      → (laws.in_use (finish pool c (some e) s2) ≡ laws.in_use s)
        × HoldsNoMore laws.in_use laws.holds s (finish pool c (some e) s2)
  failed-HoldsNoMore c e s s1 s2 up same u others =
      let (fewer, none_left, rest) = finish-GivesBack c (some e) s2 in
      (
        omega (arith, fewer, u, up),
        λ d k. elim (same_or_other d c) [
          | inl p ↦ rw p (omega (arith, none_left k))
          | inr ne ↦ omega (arith, rest d k ne, others d k ne, ap (λ h. h d k) same)
        ],
      )

  refused-HoldsNoMore :
      (c : ℕ) (s s1 s2 : S)
      → laws.in_use s1 ≡ suc (laws.in_use s)
      → laws.holds s1 ≡ laws.holds s
      → laws.in_use s2 ≡ laws.in_use s1
      → laws.holds s2 ≡ laws.holds s1
      → (laws.in_use (finish pool c none s2) ≡ laws.in_use s)
        × HoldsNoMore laws.in_use laws.holds s (finish pool c none s2)
  refused-HoldsNoMore c s s1 s2 up same u same2 =
      let (fewer, kept) = finish-GivesBack c none s2 in
      (
        omega (arith, fewer, u, up),
        λ d k. omega (arith, ap (λ h. h d k) kept, ap (λ h. h d k) same2, ap (λ h. h d k) same),
      )

  lock_answer-Acquires :
      (c : ℕ) (k : ℤ) (s s1 : S) (o : Answer (List Bool) × S)
      → laws.in_use s1 ≡ suc (laws.in_use s)
      → laws.holds s1 ≡ laws.holds s
      → Tries laws.in_use laws.holds c k s1 o
      → Acquires laws.in_use laws.holds s (lock_answer pool c k o)
  lock_answer-Acquires c k s s1 (failed e, s2) up same (u, others) =
      failed-HoldsNoMore c e s s1 s2 up same u others
  lock_answer-Acquires c k s s1 (answered [], s2) up same (u, kept) =
      refused-HoldsNoMore c s s1 s2 up same u kept
  lock_answer-Acquires c k s s1 (answered (false ∷ _), s2) up same (u, kept) =
      refused-HoldsNoMore c s s1 s2 up same u kept
  lock_answer-Acquires c k s s1 (answered (true ∷ _), s2) up same (u, taken) =
      let (took, others) = taken in
      (
        refl,
        u ∙ up,
        took ∙ ap (λ h. suc (h c k)) same,
        λ d k ne. others d k ne ∙ ap (λ h. h d k) same,
      )

  connected-Acquires :
      (id : String) (s : S) (o : Answer ℕ × S)
      → Connects laws.in_use laws.holds s o
      → Acquires laws.in_use laws.holds s (connected pool id o)
  connected-Acquires id s (failed e, s') (u, h) = (u, λ c k. omega (arith, ap (λ f. f c k) h))
  connected-Acquires id s (answered c, s') (up, h) =
      let (u, h2) = laws.listen_lem c s' in
      lock_answer-Acquires c _ s (pool.listen c s') _ (u ∙ up) (h2 ∙ h)
        (laws.try_advisory_lock_lem c _ (pool.listen c s'))

  -- `tryAcquireLock` either returns a lock, with one more connection in use whose session holds the
  -- lock's key once more, or leaves as many connections in use as before and no connection with a key
  -- that it did not hold, whether the lock is held elsewhere or a query fails.
  pub try_acquire-Acquires :
      (id : String) (s : S) → Acquires laws.in_use laws.holds s (try_acquire pool id s)
  unfolding try_acquire
  try_acquire-Acquires id s = connected-Acquires id s _ (laws.connect_lem s)

  -- What the release of a lock does, and what a second one does.
  abbrev pub Releases : Lock → S → Lock × S → Type 0
  Releases lock s (lock', s') =
      (suc (laws.in_use s') ≡ laws.in_use s)
      × (laws.holds s' lock.client lock.key ≤ laws.holds s lock.client lock.key - 1)
      × OthersHold laws.in_use laws.holds lock.client s s'
      × ((t : S) → release_lock pool lock' t ≡ (lock', t))

  unlock_answer-Releases :
      (c : ℕ) (k : ℤ) (s : S) (o : Answer (List Bool) × S)
      → 1 ≤ laws.in_use s
      → Unlocks laws.in_use laws.holds c k s o
      → Releases
          (record { client = c; key = k; released = false })
          s
          (record { client = c; key = k; released = true }, unlock_answer pool c o)
  unfolding release_lock
  unlock_answer-Releases c k s (failed e, s') some_used (u, others) =
      let (fewer, none_left, rest) = finish-GivesBack c (some e) s' in
      (
        omega (arith, fewer, u),
        omega (arith, none_left k),
        λ d j ne. rest d j ne ∙ others d j ne,
        λ t. refl,
      )
  unlock_answer-Releases c k s (answered rows, s') some_used (u, freed, others) =
      let (fewer, kept) = finish-GivesBack c none s' in
      (
        omega (arith, fewer, u),
        omega (arith, ap (λ h. h c k) kept, freed),
        λ d j ne. ap (λ h. h d j) kept ∙ others d j ne,
        λ t. refl,
      )

  -- Releasing a lock that has not been released gives its connection back and leaves its session with
  -- the key once less or not at all, whether the unlock succeeds or fails, and changes no other
  -- connection; releasing it again does nothing, if there was a connection in use.
  pub release_lock-Releases :
      (lock : Lock) (s : S)
      → lock.released ≡ false
      → 1 ≤ laws.in_use s
      → Releases lock s (release_lock pool lock s)
  unfolding release_lock
  release_lock-Releases lock s held some_used = rw held (
      unlock_answer-Releases lock.client lock.key s _ some_used
        (laws.advisory_unlock_lem lock.client lock.key s))
