-- ===== src/Scenarios/Stripe.antt =====
-- The refund contract with a client of one refund, and with the fake client.
use corrobo.Base.{
  ℕ, suc, ◌+◌, ◌≤◌, ◌≡◌, refl, String, true, false, Option, none, some, List, [], ◌∷◌, arith,
  get_last?, str_eq, ap, get_or, subst,
}
use corrobo.Memory.Map.{lookup, insert}
use corrobo.Stripe.Client.{RefundIntent, RefundLike, succeeded, replied, StripeClientLike}
use corrobo.Stripe.Contract.{undelivered, observe, reconcile, Observation}
use corrobo.Stripe.Listing.{ListLaws, IsPage}
use corrobo.Stripe.Findings.{ReplyTells, observed_evidence_holds}
use corrobo.Stripe.Paging.{IsReplied, observe_bounded, observe-IsReplied}
use corrobo.Stripe.Fake.{
  FakeStripeClient, after_commit, seed_charge, schedule_fault, do_create, commit, fake_client,
}
use corrobo.Stripe.Once.{execute_times, executes_create_once}

abbrev the_refund : RefundLike
the_refund = record {
  id = "re_1";
  status = succeeded;
  amount = 500;
  charge = "ch_1";
  metadata = some (("corrobo_operation", "refund-1") ∷ []);
}

abbrev intent : RefundIntent
intent = record { charge_id = "ch_1"; amount_cents = 500; reason = none }

-- A client that knows one refund.
abbrev page_after : Option String → List RefundLike
page_after none = the_refund ∷ []
page_after (some k) = []

abbrev single : StripeClientLike ℕ
single = record {
  create = λ p key s. (replied the_refund, s);
  retrieve = λ id s. (replied the_refund, s);
  list_page = λ charge limit after s.
      (replied (record { data_of = page_after after; has_more = false }), suc s);
}

last_is :
    (after : Option String) (r : RefundLike)
    → get_last? (page_after after) ≡ some r
    → (str_eq r.id "" ≡ false) × (page_after (some r.id) ≡ [])
last_is none r e =
    ((subst (λ x. str_eq x.id "" ≡ false) (ap (λ o. get_or o the_refund) e) refl), refl)
last_is (some k) r e = absurd (ground arith)

split-IsPage :
    (after : Option String) (charge : String) (limit s : ℕ)
    → IsPage
        (λ t c a. page_after a)
        charge
        limit
        after
        s
        (record { data_of = page_after after; has_more = false })
        []
split-IsPage none charge limit s =
    (refl, λ e. refl, λ e. refl, λ e. absurd (ground arith), last_is none)
split-IsPage (some k) charge limit s =
    (refl, λ e. refl, λ e. refl, λ e. absurd (ground arith), last_is (some k))

unfoldable single_laws : ListLaws single
single_laws = record {
  following = λ t c a. page_after a;
  list_page_lem = λ charge limit after s. (refl, ([], split-IsPage after charge limit s));
}

found_refund_applied :
    (observe single intent "refund-1" 7 undelivered 0).0
    ≡ replied (
        Observation.observed
          (corrobo.Stripe.Contract.present "re_1" succeeded 500)
          true
          "stripe:refunds"
          7)
unfolding observe
found_refund_applied = refl

observed_evidence_holds_example :
    ReplyTells intent "refund-1"
      (the_refund ∷ [])
      (observe single intent "refund-1" 7 undelivered 0)
unfolding single_laws
observed_evidence_holds_example =
    observed_evidence_holds single single_laws intent "refund-1" 7 undelivered 0 refl

observe_bounded_example : (observe single intent "refund-1" 7 undelivered 3).1 ≤ 3 + 50
observe_bounded_example =
    observe_bounded single intent "refund-1" (λ s. s) (λ charge limit after s. refl) 7 undelivered 3
      refl

observe-IsReplied_example : IsReplied (observe single intent "refund-1" 7 undelivered 3)
unfolding single_laws
observe-IsReplied_example =
    observe-IsReplied single single_laws (λ charge limit after s. (_, refl)) intent "refund-1" 7
      undelivered 3 refl (omega arith)

abbrev nothing : FakeStripeClient
nothing = record {
  charges = [];
  faults = [];
  by_idempotency_key = [];
  by_id = [];
  created_refunds = 0;
  idempotency_keys_received = [];
  reads = 0;
}

-- A charge whose next refund is made, but whose response is lost.
losing : FakeStripeClient
unfolding seed_charge schedule_fault
losing =
    schedule_fault "ch_1" (some 1) (some after_commit) none none
      (seed_charge "ch_1" 800 false false false nothing)

executes_create_once_example :
    (execute_times 3 intent "refund-1" losing).created_refunds ≤ suc losing.created_refunds
executes_create_once_example = executes_create_once 3 intent "refund-1" losing

lost_response_refunds_once : (execute_times 3 intent "refund-1" losing).created_refunds ≡ 1
unfolding losing corrobo.Stripe.Contract.execute fake_client do_create commit insert lookup
lost_response_refunds_once = refl
