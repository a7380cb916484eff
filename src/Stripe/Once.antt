-- ===== src/Stripe/Once.antt =====
-- examples/stripe-refund: the contract's `execute` against `FakeStripeClient`.
use corrobo.Base.{
  ℕ, zero, suc, ◌≤◌, ◌≡◌, refl, String, Bool, true, false, Option, none, some, arith, ltb, ◌⊎◌, inl,
  inr, Option-cases, Bool-cases, eq_iff, if◌then◌else◌, push,
}
use corrobo.Memory.Map.{lookup, lookup-insert}
use corrobo.Stripe.Client.{
  RefundIntent, RefundLike, Reply, replied, raised, CreateParams, is_definite_rejection,
}
use corrobo.Stripe.Contract.{idempotency_key_for, refund_params, executed, execute}
use corrobo.Stripe.Fake.{
  FakeStripeClient, ChargeState, ChargeFaults, before_commit, after_commit, fails_at, new_refund,
  one_create_less, commit, create_uncached, create_by_key, accept, do_create, fake_client,
}

-- The key is taken by a refund, or nothing was created.
abbrev Takes : String → FakeStripeClient → FakeStripeClient → Type 0
Takes key s s' =
    ((r : RefundLike) × (lookup key s'.by_idempotency_key ≡ some r)
      × (s'.created_refunds ≤ suc s.created_refunds))
    ⊎ (lookup key s'.by_idempotency_key ≡ none) × (s'.created_refunds ≡ s.created_refunds)

-- A failure is used up, and nothing else.
one_create_less-Takes :
    (key id : String) (f : Option ChargeFaults) (s t : FakeStripeClient)
    → Takes key s t
    → Takes key s (one_create_less id f t)
one_create_less-Takes key id none s t h = h
one_create_less-Takes key id (some f) s t h = h

commit-Takes :
    (p : CreateParams) (key : String) (c : ChargeState) (s : FakeStripeClient)
    → Takes key s (commit p key c s)
unfolding commit
commit-Takes p key c s = inl (
  new_refund p c s,
  rw (lookup-insert key key (new_refund p c s) s.by_idempotency_key, (eq_iff key key).1 refl) refl,
  omega arith,
)

Takes-either :
    {A : Type 0} (key : String) (s : FakeStripeClient) (b : Bool) (x y : A × FakeStripeClient)
    → Takes key s x.1
    → Takes key s y.1
    → Takes key s (if b then x else y).1
Takes-either key s true x y hx hy = hx
Takes-either key s false x y hx hy = hy

accept-Takes :
    (p : CreateParams) (key : String) (c : Option ChargeState) (s : FakeStripeClient)
    → lookup key s.by_idempotency_key ≡ none
    → Takes key s (accept p key c s).1
accept-Takes p key none s none_cached = inr (none_cached, refl)
accept-Takes p key (some c) s none_cached =
    Takes-either key s c.already_refunded _ _ (inr (none_cached, refl)) (
      Takes-either key s (ltb c.refundable_amount p.amount) _ _ (inr (none_cached, refl)) (
        Takes-either key s (fails_at after_commit (lookup p.charge s.faults)) _ _
          (one_create_less-Takes key p.charge (lookup p.charge s.faults) s (commit p key c s)
            (commit-Takes p key c s))
          (commit-Takes p key c s)))

create_uncached-Takes :
    (p : CreateParams) (key : String) (s : FakeStripeClient)
    → lookup key s.by_idempotency_key ≡ none
    → Takes key s (create_uncached p key s).1
create_uncached-Takes p key s none_cached =
    Takes-either key s (fails_at before_commit (lookup p.charge s.faults)) _ _
      (one_create_less-Takes key p.charge (lookup p.charge s.faults) s s (inr (none_cached, refl)))
      (accept-Takes p key (lookup p.charge s.charges) s none_cached)

-- What has created at most one refund for the key since `made` had been created: one, which holds it now,
-- or none.
abbrev pub Once : ℕ → String → FakeStripeClient → Type 0
Once made key s =
    ((r : RefundLike) × (lookup key s.by_idempotency_key ≡ some r) × (s.created_refunds ≤ suc made))
    ⊎ (lookup key s.by_idempotency_key ≡ none) × (s.created_refunds ≤ made)

Takes-Once :
    (made : ℕ) (key : String) (s t : FakeStripeClient)
    → s.created_refunds ≤ made
    → Takes key s t
    → Once made key t
Takes-Once made key s t few (inl (r, taken, one)) = inl (r, taken, omega arith)
Takes-Once made key s t few (inr (free, same)) = inr (free, omega arith)

create_by_key-Once :
    (made : ℕ) (p : CreateParams) (key : String) (s : FakeStripeClient) (cached : Option RefundLike)
    → lookup key s.by_idempotency_key ≡ cached
    → Once made key s
    → Once made key (create_by_key p key cached s).1
create_by_key-Once made p key s (some r) e once = once
create_by_key-Once made p key s none e (inl (r, taken, one)) = absurd (ground arith)
create_by_key-Once made p key s none e (inr (free, few)) =
    Takes-Once made key s (create_uncached p key s).1 few (create_uncached-Takes p key s free)

do_create-Once :
    (made : ℕ) (p : CreateParams) (key : String) (s : FakeStripeClient)
    → Once made key s
    → Once made key (do_create p key s).1
unfolding do_create
do_create-Once made p key s once =
    create_by_key-Once made p key
      (record s { idempotency_keys_received = push s.idempotency_keys_received key })
      (lookup key s.by_idempotency_key) refl once

executed_state :
    (intent : RefundIntent) (id : String) (o : Reply RefundLike × FakeStripeClient)
    → (executed fake_client intent id o).1 ≡ o.1
executed_state intent id (replied r, s) = refl
executed_state intent id (raised e, s) = elim (Bool-cases (is_definite_rejection e)) [
  | inl b ↦ rw b refl
  | inr b ↦ rw b refl
]

-- `execute` called again and again for one operation.
abbrev pub execute_times : ℕ → RefundIntent → String → FakeStripeClient → FakeStripeClient
execute_times zero intent id s = s
execute_times (suc n) intent id s = execute_times n intent id (execute fake_client intent id s).1

execute-Once :
    (made : ℕ) (intent : RefundIntent) (id : String) (s : FakeStripeClient)
    → Once made (idempotency_key_for id) s
    → Once made (idempotency_key_for id) (execute fake_client intent id s).1
unfolding execute fake_client
execute-Once made intent id s once =
    rw
      (executed_state intent id
        (do_create (refund_params fake_client intent id) (idempotency_key_for id) s))
      (do_create-Once made (refund_params fake_client intent id) (idempotency_key_for id) s once)

execute_times-Once :
    (n made : ℕ) (intent : RefundIntent) (id : String) (s : FakeStripeClient)
    → Once made (idempotency_key_for id) s
    → Once made (idempotency_key_for id) (execute_times n intent id s)
execute_times-Once zero made intent id s once = once
execute_times-Once (suc n) made intent id s once =
    execute_times-Once n made intent id _ (execute-Once made intent id s once)

Once-at_first : (key : String) (s : FakeStripeClient) → Once s.created_refunds key s
Once-at_first key s = elim (Option-cases (lookup key s.by_idempotency_key)) [
  | inl e ↦ inr (e, omega arith)
  | inr (r, e) ↦ inl (r, e, omega arith)
]

Once-bound :
    (made : ℕ) (key : String) (s : FakeStripeClient)
    → Once made key s
    → s.created_refunds ≤ suc made
Once-bound made key s (inl (r, taken, one)) = one
Once-bound made key s (inr (free, few)) = omega arith

-- However often `execute` is called for one operation, whichever calls fail before or after the refund
-- was made, the fake provider creates at most one refund for it.
pub executes_create_once :
    (n : ℕ) (intent : RefundIntent) (id : String) (s : FakeStripeClient)
    → (execute_times n intent id s).created_refunds ≤ suc s.created_refunds
executes_create_once n intent id s =
    Once-bound s.created_refunds (idempotency_key_for id) (execute_times n intent id s) (
      execute_times-Once n s.created_refunds intent id s (Once-at_first (idempotency_key_for id) s))
