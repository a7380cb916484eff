-- ===== src/Runtime/Effect.antt =====
-- src/core/runtime.ts: `runEffect`, one pass over an operation.
use corrobo.Base.{ℕ, String, Bool, true, false, Option, none, some, if◌then◌else◌, str_eq}
use corrobo.Types.{
  OperationStatus, awaiting_review, opened, closed, ReasonCode, ReviewEpisode, OperationRecord,
  EffectContract, EffectResult, EffectRequest, AuthorizeInput, HookResult, throws, returns,
}
use corrobo.Fault.{
  Fault, type_error, invalid_contract, wrong_operation_type, identity_reused, store_conflict,
  hook_threw,
}
use corrobo.Store.{keep, put}
use corrobo.Runtime.Monad.{
  Host, Action, pure, raise, lift, guard, catching, ◌>>=◌, ◌>>◌, on_store, await_hook, authorizing,
}
use corrobo.Runtime.Fingerprints.{ask_fingerprint}
use corrobo.Value.{Value}
use corrobo.Runtime.Answers.{Authorization, valid_authorization}
use corrobo.Runtime.Review.{open_review, open_review_episode, review_patch}
use corrobo.Runtime.Report.{default_reason, result_from_record, result_for_in_progress}
use corrobo.Runtime.Check.{ResolvedRequest, check_then_attempt}
use corrobo.Runtime.Entry.{
  is_valid_contract, resolve_identity, PreparedIntent, prepare_intent, acting_intent,
}
use corrobo.Runtime.Continue.{continue_open}

module _ {S : Type 0} (h : Host S) (c : EffectContract) where
  -- `prepared.fingerprint ?? fingerprintIntent(contract, intent)`
  abbrev pub asked : Option String → Value → Action S String
  asked (some f) intent = pure f
  asked none intent = ask_fingerprint c intent

  -- `assertSameLogicalOperation`
  unfoldable pub assert_same_logical_operation :
      ResolvedRequest → PreparedIntent → OperationRecord → Action S (Unit {0})
  unfolding ask_fingerprint
  assert_same_logical_operation request prepared existing =
      if str_eq existing.identity.operation_type c.operation_type
      then (ask_fingerprint c existing.intent >>= λ recorded.
          asked prepared.fingerprint request.intent >>= λ given.
          guard (str_eq recorded given) (identity_reused request.identity.id))
      else raise (wrong_operation_type request.identity.id)

  unfoldable pub authorized : HookResult → Action S Authorization
  unfolding valid_authorization
  authorized (throws e) = raise (hook_threw e)
  authorized (returns v) = lift (valid_authorization v)

  unfoldable pub ask_authorize :
      Option (ℕ → AuthorizeInput → HookResult) → ResolvedRequest → Action S Authorization
  unfolding authorized await_hook
  ask_authorize none request = pure (record { needs_review = false; reason = none })
  ask_authorize (some hook) request =
      let i : AuthorizeInput = record {
        intent = request.intent;
        identity = request.identity;
        context = request.context;
      } in
      await_hook h (authorizing i) (λ n. hook n i) >>= authorized

  unfoldable pub create_for_review :
      ResolvedRequest → PreparedIntent → Option ReasonCode → Action S EffectResult
  unfolding ask_fingerprint open_review_episode on_store result_from_record
  create_for_review request prepared reason = do
    fingerprint ← asked prepared.fingerprint prepared.stored
    episode ← open_review_episode h request.identity fingerprint none none
    created ← on_store h λ n. h.store.create_operation n (record {
      identity = request.identity;
      intent = prepared.stored;
      status = awaiting_review;
      review_reason = some (default_reason reason);
      review_episode = some episode;
    })
    pure (result_from_record created)

  unfoldable pub create_and_attempt : ResolvedRequest → PreparedIntent → Action S EffectResult
  unfolding on_store check_then_attempt
  create_and_attempt request prepared = do
    created ← on_store h λ n. h.store.create_operation n (record {
      identity = request.identity;
      intent = prepared.stored;
      status = opened;
      review_reason = none;
      review_episode = none;
    })
    check_then_attempt h c created request

  -- The first call for an identity.
  unfoldable pub begin : ResolvedRequest → PreparedIntent → Action S EffectResult
  unfolding ask_authorize create_for_review create_and_attempt
  begin request prepared = do
    auth ← ask_authorize c.authorize request
    if auth.needs_review
        then create_for_review request prepared auth.reason
        else create_and_attempt request prepared

  unfoldable pub reopen_review : OperationRecord → Action S EffectResult
  unfolding ask_fingerprint open_review_episode review_patch on_store result_from_record
  reopen_review r = do
    fingerprint ← ask_fingerprint c r.intent
    episode ← open_review_episode h r.identity fingerprint r.review_episode r.review
    updated ← on_store h λ n.
        h.store.update_operation n r.identity.id
          (record {
            status = none;
            review_reason = keep;
            blocked_by = keep;
            review = review_patch episode;
            review_episode = put episode;
          })
          r.version
    pure (result_from_record updated)

  unfoldable pub await_review : OperationRecord → Option ReviewEpisode → Action S EffectResult
  unfolding reopen_review result_from_record
  await_review r (some _) = pure (result_from_record r)
  await_review r none = reopen_review r

  unfoldable pub resume_at :
      OperationStatus → OperationRecord → ResolvedRequest → Action S EffectResult
  unfolding await_review continue_open open_review result_from_record
  resume_at closed r request = pure (result_from_record r)
  resume_at awaiting_review r request = await_review r (open_review r)
  resume_at opened r request =
      continue_open h c r (record request { intent = acting_intent c r.intent request.intent })

  -- A later call for an identity that is on record.
  unfoldable pub resume : OperationRecord → ResolvedRequest → Action S EffectResult
  unfolding resume_at
  resume r request = resume_at r.status r request

  unfoldable pub run_found :
      ResolvedRequest → PreparedIntent → Option OperationRecord → Action S EffectResult
  unfolding begin resume assert_same_logical_operation
  run_found request prepared none = begin request prepared
  run_found request prepared (some r) = do
    assert_same_logical_operation request prepared r
    resume r request

  -- `runCoordinated`
  unfoldable pub run_coordinated : ResolvedRequest → PreparedIntent → Action S EffectResult
  unfolding run_found on_store
  run_coordinated request prepared =
      on_store h (λ n. h.store.get_operation request.identity.id) >>= run_found request prepared

  unfoldable pub reported :
      ResolvedRequest
      → PreparedIntent
      → Action S EffectResult
      → Option OperationRecord
      → Action S EffectResult
  unfolding assert_same_logical_operation result_from_record
  reported request prepared otherwise none = otherwise
  reported request prepared otherwise (some r) = do
    assert_same_logical_operation request prepared r
    pure (result_from_record r)

  -- What is on record now, for a caller that did not get to act; `otherwise` if there is none.
  unfoldable pub report_current :
      ResolvedRequest → PreparedIntent → Action S EffectResult → Action S EffectResult
  unfolding on_store reported
  report_current request prepared otherwise =
      on_store h (λ n. h.store.get_operation request.identity.id)
      >>= reported request prepared otherwise

  -- A lost race for a write is reported by what is recorded; all else is thrown on.
  unfoldable pub on_conflict : ResolvedRequest → PreparedIntent → Fault → Action S EffectResult
  unfolding report_current
  on_conflict request prepared (store_conflict id expected actual) =
      report_current request prepared (raise (store_conflict id expected actual))
  on_conflict request prepared f = raise f

  -- `finally { lock.release() }`
  unfoldable pub releasing : {A : Type 0} → String → Action S A → Action S A
  releasing id m w = let (r, w') = m w in (r, record w' { state = h.store.release id w'.state })

  unfoldable pub run_locked : ResolvedRequest → PreparedIntent → Bool → Action S EffectResult
  unfolding releasing run_coordinated on_conflict report_current result_for_in_progress
  run_locked request prepared false =
      report_current request prepared (pure (result_for_in_progress request.identity))
  run_locked request prepared true =
      releasing request.identity.id
        (catching (run_coordinated request prepared) (on_conflict request prepared))

  -- `runEffect`
  unfoldable pub run_effect : EffectRequest → Action S EffectResult
  unfolding is_valid_contract resolve_identity prepare_intent on_store run_locked
  run_effect input = do
    guard (is_valid_contract c) (type_error invalid_contract)
    identity ← lift (resolve_identity c input.identity)
    prepared ← lift (prepare_intent c input.intent)
    let request : ResolvedRequest = record {
      identity = identity;
      intent = acting_intent c prepared.stored input.intent;
      context = input.context;
    }
    held ← on_store h (λ n. h.store.try_acquire_lock identity.id)
    run_locked request prepared held
