-- ===== src/Postgres/Kept.antt =====
-- src/stores/postgres.ts: what `jsonb` columns keep of what is written.
use corrobo.Base.{◌≡◌, refl, Option, none, some, get_or, inl, inr, arith, Option-cases}
use corrobo.Value.{Value}
use corrobo.Types.{
  TransportOutcome, PreExecuteCheck, ReservedAttemptInput, ResolvedAttempt, AttemptRecord, resolved,
}
use corrobo.Store.Kept.{Kept, KeepsCourse, outline_check, outline}
use corrobo.Runtime.Attempt.{transport_ok}
use corrobo.Postgres.Jsonb.{sanitize_transport}
use corrobo.Postgres.Columns.{
  Encoding, as_json, as_jsonb_text, sanitize_attempt, column_checked, column_check,
  column_transport, column_resolved, column_attempt, column_reservation, column_intent,
  column_reason, column_block, column_observations, column_optional, ◌>>=◌,
}

pub bind_some :
    {A B : Type 0} {f : A → Option B} {b : B} (o : Option A)
    → (o >>= f) ≡ some b
    → (a : A) × (o ≡ some a) × (f a ≡ some b)
bind_some none h = absurd (ground arith)
bind_some (some a) h = (a, refl, h)

KeepsCourse-same : (a : ResolvedAttempt) → KeepsCourse a a
KeepsCourse-same a = record {
  same_outline = refl;
  same_transport = refl;
  same_evidence = refl;
  same_disposition = refl;
  same_wait = refl;
}

KeepsCourse-trans : {a b c : ResolvedAttempt} → KeepsCourse a b → KeepsCourse b c → KeepsCourse a c
KeepsCourse-trans p q = record {
  same_outline = cc (p.same_outline, q.same_outline);
  same_transport = cc (p.same_transport, q.same_transport);
  same_evidence = cc (p.same_evidence, q.same_evidence);
  same_disposition = cc (p.same_disposition, q.same_disposition);
  same_wait = cc (p.same_wait, q.same_wait);
}

module _ (reread : Value → Value) (e : Encoding) where
  column_checked_outline :
      (k k' : Option PreExecuteCheck)
      → column_checked reread e k ≡ some k'
      → outline_check k' ≡ outline_check k
  unfolding column_checked column_check
  column_checked_outline none k' h = ground arith
  column_checked_outline (some k) k' h = ground arith

  column_transport_ok :
      (t t' : TransportOutcome)
      → column_transport reread e t ≡ some t'
      → transport_ok t' ≡ transport_ok t
  unfolding column_transport
  column_transport_ok t t' h = ground arith

  column_resolved-KeepsCourse :
      (a b : ResolvedAttempt) → column_resolved reread e a ≡ some b → KeepsCourse a b
  unfolding column_resolved
  column_resolved-KeepsCourse a b h =
      let (t, t_is, h1) = bind_some (column_transport reread e a.transport) h in
      let (os, os_is, h2) = bind_some (column_observations reread e a.observations) h1 in
      let (effect, effect_is, h3) = bind_some (column_optional reread e a.observed_effect) h2 in
      let (er, er_is, h4) = bind_some (column_reason reread e a.evidence_reason) h3 in
      let (dr, dr_is, h5) = bind_some (column_reason reread e a.disposition_reason) h4 in
      let (k, k_is, h6) = bind_some (column_checked reread e a.check) h5 in
      record {
        same_outline = ground (arith, column_checked_outline a.check k k_is);
        same_transport = ground (arith, column_transport_ok a.transport t t_is);
        same_evidence = ground arith;
        same_disposition = ground arith;
        same_wait = ground arith;
      }

  pub column_resolved_transport :
      (a b : ResolvedAttempt)
      → column_resolved reread e a ≡ some b
      → column_transport reread e a.transport ≡ some b.transport
  unfolding column_resolved
  column_resolved_transport a b h =
      let (t, t_is, h1) = bind_some (column_transport reread e a.transport) h in
      let (os, os_is, h2) = bind_some (column_observations reread e a.observations) h1 in
      let (effect, effect_is, h3) = bind_some (column_optional reread e a.observed_effect) h2 in
      let (er, er_is, h4) = bind_some (column_reason reread e a.evidence_reason) h3 in
      let (dr, dr_is, h5) = bind_some (column_reason reread e a.disposition_reason) h4 in
      let (k, k_is, h6) = bind_some (column_checked reread e a.check) h5 in cc (t_is, h6)

  column_reserved_outline :
      (i : ReservedAttemptInput) (k : Option PreExecuteCheck)
      → column_checked reread e i.check ≡ some k
      → outline (record i { check = k }) ≡ outline i
  column_reserved_outline i k h = ground (arith, column_checked_outline i.check k h)

module _ (reread : Value → Value) where
  unfoldable pub kept_reservation : ReservedAttemptInput → ReservedAttemptInput
  kept_reservation i = get_or (column_reservation reread i) i

  unfoldable pub kept_attempt : AttemptRecord → AttemptRecord
  kept_attempt a = get_or (column_attempt reread a) a

  unfoldable pub kept_resolution : ResolvedAttempt → ResolvedAttempt
  kept_resolution a = get_or (column_resolved reread as_jsonb_text (sanitize_attempt a)) a

  sanitize_attempt-KeepsCourse : (a : ResolvedAttempt) → KeepsCourse a (sanitize_attempt a)
  unfolding sanitize_attempt sanitize_transport
  sanitize_attempt-KeepsCourse a = record {
    same_outline = refl;
    same_transport = ground arith;
    same_evidence = refl;
    same_disposition = refl;
    same_wait = refl;
  }

  pub outline-kept_reservation :
      (i : ReservedAttemptInput) → outline (kept_reservation i) ≡ outline i
  unfolding kept_reservation column_reservation
  outline-kept_reservation i = elim (Option-cases (column_checked reread as_json i.check)) [
    | inl e ↦ ground arith
    | inr (k, e) ↦ rw e (column_reserved_outline reread as_json i k e)
  ]

  pub kept_attempt-resolved :
      (a : ResolvedAttempt) → kept_attempt (resolved a) ≡ resolved (kept_resolution a)
  unfolding kept_attempt kept_resolution column_attempt
  kept_attempt-resolved a = ground arith

  pub kept_resolution-KeepsCourse : (a : ResolvedAttempt) → KeepsCourse a (kept_resolution a)
  unfolding kept_resolution
  kept_resolution-KeepsCourse a =
      elim (Option-cases (column_resolved reread as_jsonb_text (sanitize_attempt a))) [
        | inl e ↦ rw e (KeepsCourse-same a)
        | inr (b, e) ↦ rw e (
            KeepsCourse-trans (sanitize_attempt-KeepsCourse a)
              (column_resolved-KeepsCourse reread as_jsonb_text (sanitize_attempt a) b e))
      ]

  -- What the columns keep. What `JSON.stringify` throws at is not written at all.
  unfoldable pub columns_keep : Kept
  unfolding kept_reservation kept_resolution kept_attempt
  columns_keep = record {
    intent = λ v. get_or (column_intent reread v) v;
    reason = λ r. get_or (column_reason reread as_json r) r;
    block = λ b. get_or (column_block reread as_json b) b;
    review = λ v. v;
    episode = λ e. e;
    reservation = kept_reservation;
    resolution = kept_resolution;
    attempt = kept_attempt;
    same_reservation = outline-kept_reservation;
    same_course = kept_resolution-KeepsCourse;
    attempt_resolved = kept_attempt-resolved;
    same_token = λ v. refl;
    same_decision = λ v. refl;
  }
