-- ===== src/Runtime/Monad.antt =====
-- The setting in which src/core/runtime.ts runs: a store, clocks, hooks that are called, and other
-- callers that may act on the store wherever the code awaits. An action is a state-passing function
-- that may throw; what was written before a throw stays written.
use corrobo.Base.{ℕ, suc, String, Bool, true, false, Option, none, some, List, ◌∷◌}
use corrobo.Value.{Value}
use corrobo.Types.{
  AuthorizeInput, RevalidateInput, ExecuteInput, ObserveInput, ReconcileInput, HookResult,
}
use corrobo.Fault.{Fault, Outcome, ok, thrown}
use corrobo.Store.{EffectStore}

-- A call of one of the contract's hooks.
pub data Call : Type 0 where
  authorizing : AuthorizeInput → Call
  revalidating : RevalidateInput → Call
  executing : ExecuteInput → Call
  observing : ObserveInput → Call
  reconciling : ReconcileInput → Call
  fingerprinting : Value → Call

-- What is not code of this repository: the store that was passed in, the process's clock,
-- `randomBytes`, the SHA-256 digest in hexadecimal, `String(value)` (none where it throws), what is
-- thrown where a value cannot be read or copied, and what other callers do to the store meanwhile.
-- A number tells one reading or one moment from the next.
pub record Host (S : Type 0) : Type 0 where
  pub store : EffectStore S
  pub clock : ℕ → ℕ
  pub random_hex : ℕ → String
  pub sha256_hex : String → String
  pub to_text : Value → Option String
  pub read_error : Value → Value
  pub others : ℕ → S → S

-- The calls stand newest first.
pub record World (S : Type 0) : Type 0 where
  pub state : S
  pub ticks : ℕ
  pub calls : List Call

abbrev pub Action : Type 0 → Type 0 → Type 0
Action S A = World S → Outcome A × World S

module _ {S : Type 0} where
  unfoldable pub pure : {A : Type 0} → A → Action S A
  pure a w = (ok a, w)

  unfoldable pub raise : {A : Type 0} → Fault → Action S A
  raise f w = (thrown f, w)

  unfoldable pub lift : {A : Type 0} → Outcome A → Action S A
  lift r w = (r, w)

  infixl 5 ◌>>=◌ ◌>>◌
  unfoldable pub ◌>>=◌ : {A B : Type 0} → Action S A → (A → Action S B) → Action S B
  ◌>>=◌ m f w = let (r, w') = m w in elim r [ ok a ↦ f a w' | thrown e ↦ (thrown e, w') ]

  unfoldable pub ◌>>◌ : {B : Type 0} → Action S (Unit {0}) → Action S B → Action S B
  m >> k = m >>= λ _. k

  -- `try { m } catch (e) { handler(e) }`
  unfoldable pub catching : {A : Type 0} → Action S A → (Fault → Action S A) → Action S A
  catching m handler w = let (r, w') = m w in elim r [ ok a ↦ (ok a, w') | thrown e ↦ handler e w' ]

  unfoldable pub guard : Bool → Fault → Action S (Unit {0})
  guard true f w = (ok tt, w)
  guard false f w = (thrown f, w)

module _ {S : Type 0} (h : Host S) where
  -- `nowIso()`
  unfoldable pub now_iso : Action S ℕ
  now_iso w = (ok (h.clock w.ticks), record w { ticks = suc w.ticks })

  -- An awaited call of the store: others may act first.
  unfoldable pub on_store : {A : Type 0} → (ℕ → S → Outcome A × S) → Action S A
  on_store op w =
      let (r, s) = op (h.clock w.ticks) (h.others w.ticks w.state) in
      (r, record w { state = s; ticks = suc w.ticks })

  -- An awaited hook: it is called, and others may act until it answers.
  unfoldable pub await_hook : Call → (ℕ → HookResult) → Action S HookResult
  await_hook c f w = (
    ok (f w.ticks),
    record { state = h.others w.ticks w.state; ticks = suc w.ticks; calls = c ∷ w.calls },
  )

  -- A hook that is not awaited.
  unfoldable pub call_hook : Call → (ℕ → HookResult) → Action S HookResult
  call_hook c f w = (ok (f w.ticks), record w { ticks = suc w.ticks; calls = c ∷ w.calls })

  unfoldable pub random_nonce : Action S String
  random_nonce w = (ok (h.random_hex w.ticks), record w { ticks = suc w.ticks })

  -- `safetyNow`: the store's shared clock if it has one, and else the process's.
  unfoldable pub safety_now : Action S ℕ
  unfolding on_store now_iso
  safety_now = elim h.store.now [ some read ↦ on_store read | none ↦ now_iso ]
