-- ===== src/Memory/Freed.antt =====
-- src/core/runtime.ts `runEffect` on an InMemoryStore: what becomes of the lock.
use corrobo.Base.{String, true, ◌≡◌, refl, sym, subst, inl, eq_iff, arith}
use corrobo.Types.{OperationIdentity, EffectContract, EffectRequest}
use corrobo.Fault.{Outcome, ok, thrown}
use corrobo.Store.{EffectStore}
use corrobo.Memory.{InMemoryStore, acquired, memory_store, try_acquire_lock}
use corrobo.Memory.Clone.{StructuredClone}
use corrobo.Memory.Lock.{release_frees}
use corrobo.Runtime.Monad.{Host, World, Action, guard, lift, on_store, ◌>>=◌, ◌>>◌}
use corrobo.Runtime.Entry.{is_valid_contract, resolve_identity, PreparedIntent, prepare_intent}
use corrobo.Runtime.Effect.{releasing, run_locked, run_effect}

-- The lock of `id` can be acquired in the state that an action leaves.
abbrev LetsIn : {A : Type 0} → String → Outcome A × World InMemoryStore → Type 0
LetsIn id r = (try_acquire_lock id r.1.state).0 ≡ ok true

after_bind :
    {A B : Type 0} (id : String) (m : Action InMemoryStore A) (f : A → Action InMemoryStore B)
    (w : World InMemoryStore) (a : A)
    → (m w).0 ≡ ok a
    → LetsIn id (f a (m w).1)
    → LetsIn id ((m >>= f) w)
unfolding ◌>>=◌
after_bind {A = A} {B = B} id m f w a answered free =
    subst
      (λ (r : Outcome A).
        LetsIn {A = B} id (elim r [ ok b ↦ f b (m w).1 | thrown e ↦ (thrown e, (m w).1) ]))
      (sym answered) free

module _ (clone : StructuredClone) (h : Host InMemoryStore)
    (in_memory : h.store ≡ memory_store clone) (c : EffectContract) where
  release_lets_in :
      (id : String) (s : InMemoryStore) → (try_acquire_lock id (h.store.release id s)).0 ≡ ok true
  release_lets_in id s =
      subst
        (λ (st : EffectStore InMemoryStore). (try_acquire_lock id (st.release id s)).0 ≡ ok true)
        (sym in_memory)
        ((release_frees (acquired id) id s s).0.1 (inl (refl, ground (arith, eq_iff id id))))

  -- On an InMemoryStore, if the contract is valid, the identity and the intent of the request are
  -- accepted, and the pass of `runEffect` gets the operation's lock, then the lock can be acquired after
  -- the pass, whatever the hooks answer and other callers do, and however the pass ends.
  pub run_effect_frees_lock :
      (input : EffectRequest) (identity : OperationIdentity) (prepared : PreparedIntent)
      (w : World InMemoryStore)
      → is_valid_contract c ≡ true
      → resolve_identity c input.identity ≡ ok identity
      → prepare_intent c input.intent ≡ ok prepared
      → (h.store.try_acquire_lock identity.id (h.others w.ticks w.state)).0 ≡ ok true
      → (try_acquire_lock identity.id (run_effect h c input w).1.state).0 ≡ ok true
  unfolding run_effect run_locked releasing ◌>>◌ guard lift on_store
  run_effect_frees_lock input identity prepared w valid named stored got = rw valid (
      after_bind identity.id _ _ w tt refl (
        after_bind identity.id _ _ w identity named (
          after_bind identity.id _ _ w prepared stored
            (after_bind identity.id _ _ w true got (release_lets_in identity.id _)))))
