-- ===== src/Runtime/Quiet.antt =====
-- Which parts of src/core/runtime.ts call which hooks.
pub mod Observing
pub mod Attempting
pub mod Passing
pub mod Unapproved
pub mod Once
pub mod Reviewing
use corrobo.Base.{
  String, ◌≡◌, refl, ◌∙◌, ap, Bool, true, false, List, [], ◌∷◌, ℕ, Option, none, some,
}
use corrobo.Value.{Value, Stored, plain, fails, absent, json}
use corrobo.Types.{ExecuteInput, HookResult, EffectContract, FingerprintResult}
use corrobo.Runtime.Fingerprints.{noted, ask_fingerprint}
use corrobo.Fault.{Outcome}
use corrobo.Runtime.Monad.{
  Host, World, Action, Call, authorizing, revalidating, executing, observing, reconciling,
  fingerprinting, now_iso, on_store, await_hook, call_hook, random_nonce, safety_now, lift,
}
use corrobo.Runtime.Frame.{Frame, Gives, Gives-Anything, Does, Anything, lift_does, weaken}

-- The calls of execute(), newest first.
abbrev pub executions : List Call → List ExecuteInput
executions [] = []
executions (executing i ∷ cs) = i ∷ executions cs
executions (authorizing _ ∷ cs) = executions cs
executions (revalidating _ ∷ cs) = executions cs
executions (observing _ ∷ cs) = executions cs
executions (reconciling _ ∷ cs) = executions cs
executions (fingerprinting _ ∷ cs) = executions cs

-- What is left alone: some view of the calls.
abbrev pub leaving : {S : Type 0} {V : Type 0} → (List Call → V) → Frame S
leaving see = record {
  Allowed = λ v w. see w.calls ≡ see v.calls;
  allowed_refl = λ w. refl;
  allowed_trans = λ u v w a b. b ∙ a;
}

abbrev pub Always : {S : Type 0} → World S → Type 0
Always w = Unit

module _ {S : Type 0} (h : Host S) {V : Type 0} (see : List Call → V) where
  pub on_store_leaves :
      {A : Type 0} (op : ℕ → S → Outcome A × S) → Does (leaving see) Always (on_store h op) Anything
  unfolding on_store
  on_store_leaves op = record { at = λ w p. (refl, Gives-Anything _) }

  pub now_iso_leaves : Does (leaving see) Always (now_iso h) Anything
  unfolding now_iso
  now_iso_leaves = record { at = λ w p. (refl, tt) }

  pub random_nonce_leaves : Does (leaving see) Always (random_nonce h) Anything
  unfolding random_nonce
  random_nonce_leaves = record { at = λ w p. (refl, tt) }

  clock_leaves :
      (now : Option (ℕ → S → Outcome ℕ × S))
      → Does
          (leaving see)
          Always
          (elim now [ some read ↦ on_store h read | none ↦ now_iso h ])
          Anything
  clock_leaves none = now_iso_leaves
  clock_leaves (some read) = on_store_leaves read

  pub safety_now_leaves : Does (leaving see) Always (safety_now h) Anything
  unfolding safety_now
  safety_now_leaves = clock_leaves h.store.now

  pub lift_leaves :
      {A : Type 0} (o : Outcome A) → Does {S = S} (leaving see) Always (lift o) Anything
  lift_leaves o = weaken (leaving see) (λ w p. p) (lift_does (leaving see) o) (λ a w q. tt)

  pub await_hook_leaves :
      (c : Call) (f : ℕ → HookResult)
      → ((cs : List Call) → see (c ∷ cs) ≡ see cs)
      → Does (leaving see) Always (await_hook h c f) Anything
  unfolding await_hook
  await_hook_leaves c f unseen = record { at = λ w p. (unseen w.calls, tt) }

  pub call_hook_leaves :
      (c : Call) (f : ℕ → HookResult)
      → ((cs : List Call) → see (c ∷ cs) ≡ see cs)
      → Does (leaving see) Always (call_hook h c f) Anything
  unfolding call_hook
  call_hook_leaves c f unseen = record { at = λ w p. (unseen w.calls, tt) }

  noted_unseen :
      (v : Stored) (cs : List Call)
      → ((j : Value) → see (fingerprinting j ∷ cs) ≡ see cs)
      → see (noted v cs) ≡ see cs
  noted_unseen (plain j) cs unseen = unseen j
  noted_unseen fails cs unseen = refl
  noted_unseen absent cs unseen = refl

  pub ask_fingerprint_leaves :
      (c : EffectContract) (v : Value)
      → ((j : Value) (cs : List Call) → see (fingerprinting j ∷ cs) ≡ see cs)
      → Does {S = S} (leaving see) Always (ask_fingerprint c v) Anything
  unfolding ask_fingerprint
  ask_fingerprint_leaves c v unseen = record {
    at = λ w p. (unseen_from c.fingerprint_intent w.calls, Gives-Anything _);
  }
    where
      unseen_from :
          (hook : Option (Value → FingerprintResult)) (cs : List Call)
          → see (elim hook as (λ _. List Call) [ some _ ↦ noted (json v) cs | none ↦ cs ]) ≡ see cs
      unseen_from none cs = refl
      unseen_from (some f) cs = noted_unseen (json v) cs (λ j. unseen j cs)
