-- ===== src/Runtime/Quiet/Passing.antt =====
-- src/core/runtime.ts: how often `runEffect` executes.
use corrobo.Base.{ℕ, refl, Bool, true, false, Option, none, some, get_last?, String, str_eq}
use corrobo.Types.{
  OperationStatus, opened, awaiting_review, closed, ReasonCode, AttemptRecord, reserved, resolved,
  ResolvedAttempt, OperationRecord, EffectContract, EffectRequest, AuthorizeInput, HookResult,
  throws, returns, EffectResult,
}
use corrobo.Fault.{Fault, store_conflict}
use corrobo.Store.{NewOperationInput}
use corrobo.Runtime.Monad.{pure, Host, World, Action, authorizing, ◌>>◌}
use corrobo.Runtime.Frame.{pure_does, raise_does, bind_does, weaken, guard_does, if_does}
use corrobo.Runtime.Report.{default_reason}
use corrobo.Runtime.Review.{open_review}
use corrobo.Runtime.Check.{ResolvedRequest}
use corrobo.Runtime.Entry.{PreparedIntent, acting_intent}
use corrobo.Runtime.Continue.{
  Next, attempt_now, recover, look_again, settle_first, nothing, next_for, is_settled,
  settle_then_attempt, wait_or_settle, take_next, continue_from, continue_open,
}
use corrobo.Value.{Value}
use corrobo.Runtime.Effect.{
  asked, assert_same_logical_operation, authorized, ask_authorize, create_for_review,
  create_and_attempt, begin, resume_at, resume, run_found, run_coordinated, reported,
  report_current, on_conflict, releasing, run_locked, run_effect,
}
use corrobo.Runtime.Quiet.{
  executions, leaving, on_store_leaves, safety_now_leaves, lift_leaves, ask_fingerprint_leaves,
  await_hook_leaves,
}
use corrobo.Runtime.Quiet.Once.{
  AtMostOneMore, Once, Quiet, Quiet-Once, Once-after, Once-either, Once-caught,
}
use corrobo.Runtime.Quiet.Observing.{
  recover_reserved_attempt-Quiet, re_observe-Quiet, open_review_episode-Quiet, await_review-Quiet,
}
use corrobo.Runtime.Quiet.Attempting.{check_then_attempt-Once}

module _ {S : Type 0} (h : Host S) (c : EffectContract) where
  done-Quiet : {A : Type 0} (a : A) → Quiet {S = S} (pure a)
  done-Quiet a = pure_does (leaving executions) a (λ w q. tt)

  settle_then_attempt-Once :
      (r : OperationRecord) (request : ResolvedRequest) (a : ResolvedAttempt)
      → Once (settle_then_attempt h c r request a)
  unfolding settle_then_attempt
  settle_then_attempt-Once r request a =
      Once-after (re_observe-Quiet h c r request.intent a) (λ settled.
        Once-either (is_settled settled) (check_then_attempt-Once h c settled request)
          (Quiet-Once (done-Quiet _)))

  wait_or_settle-Once :
      (r : OperationRecord) (request : ResolvedRequest) (a : ResolvedAttempt) (t : Option ℕ)
      → Once (wait_or_settle h c r request a t)
  unfolding wait_or_settle
  wait_or_settle-Once r request a none = settle_then_attempt-Once r request a
  wait_or_settle-Once r request a (some t) =
      Once-after (safety_now_leaves h executions)
        (λ now. Once-either _ (Quiet-Once (done-Quiet _)) (settle_then_attempt-Once r request a))

  take_next-Once :
      (r : OperationRecord) (request : ResolvedRequest) (a : ResolvedAttempt) (next : Next)
      → Once (take_next h c r request a next)
  unfolding take_next
  take_next-Once r request a look_again = Quiet-Once (
      bind_does (leaving executions) (re_observe-Quiet h c r request.intent a)
        (λ updated. done-Quiet _))
  take_next-Once r request a attempt_now = check_then_attempt-Once h c r request
  take_next-Once r request a settle_first = wait_or_settle-Once r request a a.retry_not_before
  take_next-Once r request a recover = Quiet-Once (done-Quiet _)
  take_next-Once r request a nothing = Quiet-Once (done-Quiet _)

  continue_from-Once :
      (r : OperationRecord) (request : ResolvedRequest) (latest : Option AttemptRecord)
      → Once (continue_from h c r request latest)
  unfolding continue_from
  continue_from-Once r request none = check_then_attempt-Once h c r request
  continue_from-Once r request (some (reserved a)) =
      Quiet-Once (recover_reserved_attempt-Quiet h c r request.intent a)
  continue_from-Once r request (some (resolved a)) = take_next-Once r request a (next_for r a)

  authorized-Quiet : (answer : HookResult) → Quiet {S = S} (authorized h c answer)
  unfolding authorized
  authorized-Quiet (throws e) = raise_does (leaving executions) _
  authorized-Quiet (returns v) = lift_leaves h executions _

  ask_authorize-Quiet :
      (hook : Option (ℕ → AuthorizeInput → HookResult)) (request : ResolvedRequest)
      → Quiet (ask_authorize h c hook request)
  unfolding ask_authorize
  ask_authorize-Quiet none request = done-Quiet _
  ask_authorize-Quiet (some hook) request =
      let i : AuthorizeInput = record {
        intent = request.intent;
        identity = request.identity;
        context = request.context;
      } in
      bind_does (leaving executions)
        (await_hook_leaves h executions (authorizing i) (λ n. hook n i) (λ cs. refl))
        (λ answer. authorized-Quiet answer)

  asked-Quiet : (o : Option String) (v : Value) → Quiet {S = S} (asked h c o v)
  asked-Quiet (some f) v = done-Quiet _
  asked-Quiet none v = ask_fingerprint_leaves h executions c v (λ j cs. refl)

  assert_same-Quiet :
      (request : ResolvedRequest) (prepared : PreparedIntent) (r : OperationRecord)
      → Quiet {S = S} (assert_same_logical_operation h c request prepared r)
  unfolding assert_same_logical_operation
  assert_same-Quiet request prepared r =
      if_does (leaving executions) (str_eq r.identity.operation_type c.operation_type)
        (λ e.
          bind_does (leaving executions)
            (ask_fingerprint_leaves h executions c r.intent (λ j cs. refl))
            (λ recorded.
              bind_does (leaving executions) (asked-Quiet prepared.fingerprint request.intent)
                (λ given.
                  weaken (leaving executions) (λ w p. tt) (guard_does (leaving executions) _ _)
                    (λ u w q. tt))))
        (λ e. raise_does (leaving executions) _)

  create_for_review-Quiet :
      (request : ResolvedRequest) (prepared : PreparedIntent) (reason : Option ReasonCode)
      → Quiet (create_for_review h c request prepared reason)
  unfolding create_for_review
  create_for_review-Quiet request prepared reason =
      bind_does (leaving executions) (asked-Quiet prepared.fingerprint prepared.stored) (λ f.
        bind_does (leaving executions) (open_review_episode-Quiet h c request.identity f none none)
          (λ episode.
            let i : NewOperationInput = record {
              identity = request.identity;
              intent = prepared.stored;
              status = awaiting_review;
              review_reason = some (default_reason reason);
              review_episode = some episode;
            } in
            bind_does (leaving executions)
              (on_store_leaves h executions (λ n. h.store.create_operation n i))
              (λ created. done-Quiet _)))

  create_and_attempt-Once :
      (request : ResolvedRequest) (prepared : PreparedIntent)
      → Once (create_and_attempt h c request prepared)
  unfolding create_and_attempt
  create_and_attempt-Once request prepared =
      let i : NewOperationInput = record {
        identity = request.identity;
        intent = prepared.stored;
        status = opened;
        review_reason = none;
        review_episode = none;
      } in
      Once-after (on_store_leaves h executions (λ n. h.store.create_operation n i))
        (λ created. check_then_attempt-Once h c created request)

  begin-Once :
      (request : ResolvedRequest) (prepared : PreparedIntent) → Once (begin h c request prepared)
  unfolding begin
  begin-Once request prepared = Once-after (ask_authorize-Quiet c.authorize request) (λ auth.
      Once-either auth.needs_review
        (Quiet-Once (create_for_review-Quiet request prepared auth.reason))
        (create_and_attempt-Once request prepared))

  resume_at-Once :
      (status : OperationStatus) (r : OperationRecord) (request : ResolvedRequest)
      → Once (resume_at h c status r request)
  unfolding resume_at continue_open
  resume_at-Once closed r request = Quiet-Once (done-Quiet _)
  resume_at-Once awaiting_review r request = Quiet-Once (await_review-Quiet h c r (open_review r))
  resume_at-Once opened r request = continue_from-Once r _ (get_last? r.attempts)

  run_found-Once :
      (request : ResolvedRequest) (prepared : PreparedIntent) (found : Option OperationRecord)
      → Once (run_found h c request prepared found)
  unfolding run_found resume ◌>>◌
  run_found-Once request prepared none = begin-Once request prepared
  run_found-Once request prepared (some r) =
      Once-after (assert_same-Quiet request prepared r) (λ u. resume_at-Once r.status r request)

  run_coordinated-Once :
      (request : ResolvedRequest) (prepared : PreparedIntent)
      → Once (run_coordinated h c request prepared)
  unfolding run_coordinated
  run_coordinated-Once request prepared =
      Once-after (on_store_leaves h executions (λ n. h.store.get_operation request.identity.id))
        (λ found. run_found-Once request prepared found)

  reported-Quiet :
      (request : ResolvedRequest) (prepared : PreparedIntent) (otherwise : Action S EffectResult)
      (found : Option OperationRecord)
      → Quiet otherwise
      → Quiet (reported h c request prepared otherwise found)
  unfolding reported ◌>>◌
  reported-Quiet request prepared otherwise none q = q
  reported-Quiet request prepared otherwise (some r) q =
      bind_does (leaving executions) (assert_same-Quiet request prepared r) (λ u. done-Quiet _)

  report_current-Quiet :
      (request : ResolvedRequest) (prepared : PreparedIntent) (otherwise : Action S EffectResult)
      → Quiet otherwise
      → Quiet (report_current h c request prepared otherwise)
  unfolding report_current
  report_current-Quiet request prepared otherwise q =
      bind_does (leaving executions)
        (on_store_leaves h executions (λ n. h.store.get_operation request.identity.id))
        (λ found. reported-Quiet request prepared otherwise found q)

  on_conflict-Quiet :
      (request : ResolvedRequest) (prepared : PreparedIntent) (f : Fault)
      → Quiet (on_conflict h c request prepared f)
  unfolding on_conflict
  on_conflict-Quiet request prepared (store_conflict id e a) =
      report_current-Quiet request prepared _ (raise_does (leaving executions) _)
  on_conflict-Quiet request prepared f = raise_does (leaving executions) _

  run_locked-Once :
      (request : ResolvedRequest) (prepared : PreparedIntent) (held : Bool)
      → Once (run_locked h c request prepared held)
  unfolding run_locked releasing
  run_locked-Once request prepared false =
      Quiet-Once (report_current-Quiet request prepared _ (done-Quiet _))
  run_locked-Once request prepared true =
      let m =
        Once-caught (run_coordinated-Once request prepared) (on_conflict-Quiet request prepared) in
      record { once = λ w. m.once w }

  run_effect-Once : (input : EffectRequest) → Once (run_effect h c input)
  unfolding run_effect ◌>>◌
  run_effect-Once input =
      Once-after
        (weaken (leaving executions) (λ w p. p) (guard_does (leaving executions) _ _) (λ u w q. tt))
        (λ u. Once-after (lift_leaves h executions _) (λ identity.
          Once-after (lift_leaves h executions _) (λ prepared.
            Once-after (on_store_leaves h executions (λ n. h.store.try_acquire_lock identity.id))
              (λ held.
                run_locked-Once
                  (record {
                    identity = identity;
                    intent = acting_intent c prepared.stored input.intent;
                    context = input.context;
                  })
                  prepared held))))

  -- A pass of `runEffect` calls execute() at most once, whatever is on record, whatever the hooks
  -- answer and other callers do meanwhile, and however the pass ends.
  pub run_effect_executes_once :
      (input : EffectRequest) (w : World S)
      → AtMostOneMore (executions w.calls) (executions (run_effect h c input w).1.calls)
  run_effect_executes_once input w = (run_effect-Once input).once w
