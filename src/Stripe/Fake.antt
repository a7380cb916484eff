-- ===== src/Stripe/Fake.antt =====
-- examples/stripe-refund/fake-stripe-client.ts: `FakeStripeClient`, with its faults. A refund that
-- converges does so by a step of its own, `converge`, in place of the timer.
use corrobo.Base.{
  ℕ, zero, suc, ◌+◌, ◌-◌, ltb, ◌==◌, String, Bool, true, false, ◌&&◌, Option, none, some, get_or,
  List, [], ◌∷◌, if◌then◌else◌, str_eq, length, drop, push,
}
use corrobo.Text.{decimal}
use corrobo.Text
use corrobo.Memory.Map.{Dict, lookup, insert}
use corrobo.Stripe.Client.{
  RefundStatus, pending, succeeded, failed, RefundLike, ClientError, error, Reply, replied, raised,
  CreateParams, Page, StripeClientLike,
}

pub record ChargeState : Type 0 where
  pub refundable_amount : ℕ
  pub already_refunded : Bool
  pub converge_async : Bool
  pub terminal_failure : Bool

pub data Mode : Type 0 where
  before_commit after_commit : Mode

pub record ChargeFaults : Type 0 where
  pub create_failures : ℕ
  pub mode : Mode
  pub retrieve_failures : ℕ
  pub list_failures : ℕ

pub record FakeStripeClient : Type 0 where
  pub charges : Dict ChargeState
  pub faults : Dict ChargeFaults
  pub by_idempotency_key : Dict RefundLike
  pub by_id : Dict RefundLike
  pub created_refunds : ℕ
  pub idempotency_keys_received : List String
  pub reads : ℕ

-- `seedCharge`
unfoldable pub seed_charge :
    String → ℕ → (already async terminal : Bool) → FakeStripeClient → FakeStripeClient
unfolding insert
seed_charge id amount already async terminal s = record s {
  charges =
      insert id
        (record {
          refundable_amount = amount;
          already_refunded = already;
          converge_async = async;
          terminal_failure = terminal;
        })
        s.charges;
}

abbrev no_faults : ChargeFaults
no_faults = record {
  create_failures = 0;
  mode = before_commit;
  retrieve_failures = 0;
  list_failures = 0;
}

-- `scheduleFault`, of the fields that are given
unfoldable pub schedule_fault :
    String
    → (create : Option ℕ) (mode : Option Mode) (retrieve list_ : Option ℕ) → FakeStripeClient
    → FakeStripeClient
unfolding lookup insert
schedule_fault id create mode retrieve list_ s =
    let old = get_or (lookup id s.faults) no_faults in
    record s {
      faults =
          insert id
            (record {
              create_failures = get_or create old.create_failures;
              mode = get_or mode old.mode;
              retrieve_failures = get_or retrieve old.retrieve_failures;
              list_failures = get_or list_ old.list_failures;
            })
            s.faults;
    }

-- An error without a type, as `new Error` makes it.
abbrev network_failure : ClientError
network_failure = error none "Error" none "simulated network failure"

abbrev rejection : String → String → ClientError
rejection code message = error none "FakeStripeRejection" (some code) message

-- Whether a create of the charge is to fail at this point.
abbrev pub fails_at : Mode → Option ChargeFaults → Bool
fails_at m none = false
fails_at before_commit (some f) =
    ltb 0 f.create_failures && elim f.mode [ before_commit ↦ true | after_commit ↦ false ]
fails_at after_commit (some f) =
    ltb 0 f.create_failures && elim f.mode [ before_commit ↦ false | after_commit ↦ true ]

abbrev pub one_create_less : String → Option ChargeFaults → FakeStripeClient → FakeStripeClient
one_create_less id none s = s
one_create_less id (some f) s = record s {
  faults = insert id (record f { create_failures = f.create_failures - 1 }) s.faults;
}

abbrev status_of : ChargeState → RefundStatus
status_of c = if c.converge_async then pending else if c.terminal_failure then failed else succeeded

abbrev charged : ℕ → ChargeState → ChargeState
charged amount c =
    let left = c.refundable_amount - amount in
    if c.terminal_failure then c else record c {
      refundable_amount = left;
      already_refunded = if left == 0 then true else c.already_refunded;
    }

abbrev pub new_refund : CreateParams → ChargeState → FakeStripeClient → RefundLike
new_refund p c s = record {
  id = Text.◌++◌ "re_fake_" (decimal (suc s.created_refunds));
  status = status_of c;
  amount = p.amount;
  charge = p.charge;
  metadata = p.metadata;
}

-- The state with the new refund.
unfoldable pub commit : CreateParams → String → ChargeState → FakeStripeClient → FakeStripeClient
unfolding decimal insert
commit p key c s =
    let refund = new_refund p c s in
    record s {
      charges = insert p.charge (charged p.amount c) s.charges;
      by_idempotency_key = insert key refund s.by_idempotency_key;
      by_id = insert refund.id refund s.by_id;
      created_refunds = suc s.created_refunds;
    }

abbrev pub accept :
    CreateParams
    → String
    → Option ChargeState
    → FakeStripeClient
    → Reply RefundLike × FakeStripeClient
accept p key none s = (raised (rejection "resource_missing" "No such charge"), s)
accept p key (some c) s =
    let fault = lookup p.charge s.faults in
    let next = commit p key c s in
    if c.already_refunded
    then (raised (rejection "charge_already_refunded" "The charge has already been refunded."), s)
    else if ltb c.refundable_amount p.amount
    then (
      raised (rejection "amount_too_large" "Refund amount is greater than the unrefunded amount."),
      s,
    )
    else if fails_at after_commit fault
    then (raised network_failure, one_create_less p.charge fault next)
    else (replied (new_refund p c s), next)

abbrev pub create_uncached :
    CreateParams → String → FakeStripeClient → Reply RefundLike × FakeStripeClient
create_uncached p key s =
    let fault = lookup p.charge s.faults in
    if fails_at before_commit fault
    then (raised network_failure, one_create_less p.charge fault s)
    else accept p key (lookup p.charge s.charges) s

abbrev pub create_by_key :
    CreateParams
    → String
    → Option RefundLike
    → FakeStripeClient
    → Reply RefundLike × FakeStripeClient
create_by_key p key (some cached) s = (replied cached, s)
create_by_key p key none s = create_uncached p key s

-- `doCreate`
unfoldable pub do_create :
    CreateParams → String → FakeStripeClient → Reply RefundLike × FakeStripeClient
unfolding lookup commit
do_create p key s =
    let received = record s { idempotency_keys_received = push s.idempotency_keys_received key } in
    create_by_key p key (lookup key s.by_idempotency_key) received

-- The timer of a refund that converges.
unfoldable pub converge : String → String → FakeStripeClient → FakeStripeClient
unfolding lookup insert
converge id key s = elim (lookup id s.by_id) [
  | none ↦ s
  | some current ↦ elim current.status [
    | pending ↦
        let resolved = record current { status = succeeded } in
        record s {
          by_id = insert id resolved s.by_id;
          by_idempotency_key = insert key resolved s.by_idempotency_key;
        }
    | _ ↦ s
  ]
]

abbrev one_read : FakeStripeClient → FakeStripeClient
one_read s = record s { reads = suc s.reads }

abbrev fails_reading : (ChargeFaults → ℕ) → Option ChargeFaults → Bool
fails_reading count none = false
fails_reading count (some f) = ltb 0 (count f)

abbrev one_list_less : String → Option ChargeFaults → FakeStripeClient → FakeStripeClient
one_list_less id none s = s
one_list_less id (some f) s = record s {
  faults = insert id (record f { list_failures = f.list_failures - 1 }) s.faults;
}

abbrev one_retrieve_less : String → Option ChargeFaults → FakeStripeClient → FakeStripeClient
one_retrieve_less id none s = s
one_retrieve_less id (some f) s = record s {
  faults = insert id (record f { retrieve_failures = f.retrieve_failures - 1 }) s.faults;
}

abbrev of_charge : String → Dict RefundLike → List RefundLike
of_charge charge [] = []
of_charge charge ((k, r) ∷ d) =
    let rest = of_charge charge d in if str_eq r.charge charge then r ∷ rest else rest

-- `findIndex(...) + 1`, which is 0 where there is none
unfoldable position_after : String → List RefundLike → ℕ
position_after id [] = 0
position_after id (r ∷ rs) =
    let rest = position_after id rs in
    if str_eq r.id id then 1 else if rest == 0 then 0 else suc rest

abbrev take : ℕ → List RefundLike → List RefundLike
take zero rs = []
take (suc n) [] = []
take (suc n) (r ∷ rs) = r ∷ take n rs

abbrev from_of : Option String → List RefundLike → ℕ
from_of none all = 0
from_of (some id) all = if str_eq id "" then 0 else position_after id all

-- `doList`
unfoldable pub do_list :
    String → Option ℕ → Option String → FakeStripeClient → Reply Page × FakeStripeClient
unfolding lookup insert position_after
do_list charge limit starting_after s =
    let read = one_read s in
    let fault = lookup charge s.faults in
    let all = of_charge charge s.by_id in
    let from = from_of starting_after all in
    let limit = get_or limit 10 in
    if fails_reading (λ f. f.list_failures) fault
    then (raised network_failure, one_list_less charge fault read)
    else (
      replied (record {
        data_of = take limit (drop from all);
        has_more = ltb (from + limit) (length all);
      }),
      read,
    )

abbrev retrieved : Option RefundLike → FakeStripeClient → Reply RefundLike × FakeStripeClient
retrieved none s = (raised (rejection "resource_missing" "No such refund"), s)
retrieved (some r) s =
    let fault = lookup r.charge s.faults in
    if fails_reading (λ f. f.retrieve_failures) fault
    then (raised network_failure, one_retrieve_less r.charge fault s)
    else (replied r, s)

-- `doRetrieve`
unfoldable pub do_retrieve : String → FakeStripeClient → Reply RefundLike × FakeStripeClient
unfolding lookup insert
do_retrieve id s = retrieved (lookup id s.by_id) (one_read s)

unfoldable pub fake_client : StripeClientLike FakeStripeClient
unfolding do_create do_retrieve do_list
fake_client = record { create = do_create; retrieve = do_retrieve; list_page = do_list }
