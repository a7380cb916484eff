-- ===== src/Memory/Lock.antt =====
-- src/stores/memory.ts: the mutex of `InMemoryStore`.
use corrobo.Base.{
  String, List, [], ◌∷◌, true, false, not, ◌&&◌, ◌≡◌, ◌↔◌, ◌⊎◌, str_eq, eq_iff, arith, Bool-cases,
  inl, inr,
}
use corrobo.Fault.{ok}
use corrobo.Memory.{InMemoryStore, OperationLock, is_locked, unlock, try_acquire_lock, release}

is_locked-unlock :
    (id k : String) (ks : List String)
    → is_locked k (unlock id ks) ≡ not (str_eq id k) && is_locked k ks
unfolding is_locked unlock
is_locked-unlock id k [] = ground arith
is_locked-unlock id k (j ∷ ks) =
    ground (arith, is_locked-unlock id k ks, eq_iff j id, eq_iff j k, eq_iff id k)

-- A lock that was just acquired is refused to everybody, and no other lock is affected.
pub try_acquire_lock_excludes :
    (id k : String) (s : InMemoryStore)
    → (try_acquire_lock id s).0 ≡ ok true
    → ((try_acquire_lock k (try_acquire_lock id s).1).0 ≡ ok true)
      ↔ (str_eq id k ≡ false) × ((try_acquire_lock k s).0 ≡ ok true)
unfolding try_acquire_lock is_locked
try_acquire_lock_excludes id k s got =
    (λ h. ground (arith, eq_iff id k), λ h. ground (arith, eq_iff id k))

-- The first release of a lock's handle lets the lock be acquired, and otherwise exactly those that could
-- be before; a later one changes nothing, whoever has the lock by then.
pub release_frees :
    (l : OperationLock) (k : String) (s t : InMemoryStore)
    → (((try_acquire_lock k (release l s).1).0 ≡ ok true)
        ↔ ((l.released ≡ false) × (str_eq l.identity_id k ≡ true))
          ⊎ ((try_acquire_lock k s).0 ≡ ok true))
      × (release (release l s).0 t ≡ ((release l s).0, t))
unfolding try_acquire_lock release
release_frees l k s t = (
  (
    λ h. ground (arith, is_locked-unlock l.identity_id k s.locked),
    λ h. ground (arith, is_locked-unlock l.identity_id k s.locked),
  ),
  elim (Bool-cases l.released) [ inl spent ↦ ground arith | inr fresh ↦ ground arith ],
)
