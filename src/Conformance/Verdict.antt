-- ===== src/Conformance/Verdict.antt =====
-- src/testing/conformance.ts: which scenarios pass, and which reports.
use corrobo.Base.{
  ℕ, ltb, ◌==◌, ◌≤◌, ◌≡◌, refl, ◌≢◌, ◌↔◌, ◌⊎◌, inl, inr, String, Bool, true, false, not, ◌&&◌, ◌||◌,
  List, [], ◌∷◌, length, arith, if◌then◌else◌, push,
}

pub data ScenarioStatus : Type 0 where
  pass fail skipped : ScenarioStatus

abbrev any : (String → Bool) → List String → Bool
any p [] = false
any p (s ∷ ss) = p s || any p ss

-- The rules at the end of `runScenario`, for its failures so far, the effects at the target, and whether
-- the final evidence is APPLIED. `mentions` is the test that a failure names the number of effects.
unfoldable pub judged :
    (mentions : String → Bool) → List String → (effects : ℕ) → (applied : Bool) → List String
judged mentions failures effects applied =
    let counted =
      if ltb 1 effects && not (any mentions failures)
      then push failures "the target has more effects for one operation"
      else failures in
    if applied && (effects == 0)
    then push counted "final evidence is APPLIED but the target has no effect for this operation"
    else counted

unfoldable pub status_of : List String → ScenarioStatus
status_of [] = pass
status_of (_ ∷ _) = fail

abbrev is_run : ScenarioStatus → Bool
is_run skipped = false
is_run _ = true

abbrev is_fail : ScenarioStatus → Bool
is_fail fail = true
is_fail _ = false

abbrev filter : (ScenarioStatus → Bool) → List ScenarioStatus → List ScenarioStatus
filter p [] = []
filter p (s ∷ ss) = let rest = filter p ss in if p s then s ∷ rest else rest

-- `passed` of `verifyEffectContract`
unfoldable pub passed : List ScenarioStatus → Bool
passed results =
    let ran = filter is_run results in (length (filter is_fail ran) == 0) && ltb 0 (length ran)

abbrev pub NoneFails : List ScenarioStatus → Type 0
NoneFails [] = Unit
NoneFails (s ∷ ss) = (s ≢ fail) × NoneFails ss

abbrev pub SomeRun : List ScenarioStatus → Type 0
SomeRun [] = ⊥
SomeRun (s ∷ ss) = (s ≢ skipped) ⊎ SomeRun ss

push_fails : (ss : List String) (s : String) → status_of (push ss s) ≡ fail
unfolding status_of
push_fails [] s = refl
push_fails (t ∷ ss) s = refl

-- A scenario passes only if none of its checks failed, the target has at most one effect for the
-- operation, and, if the final evidence is that it was applied, has one.
pub judged_pass :
    (mentions : String → Bool) (failures : List String) (effects : ℕ) (applied : Bool)
    → status_of (judged mentions failures effects applied) ≡ pass
    → (failures ≡ []) × (effects ≤ 1) × (applied ≡ true → effects ≡ 1)
unfolding judged status_of
judged_pass mentions [] effects applied h = (refl, ground arith, λ e. ground arith)
judged_pass mentions (f ∷ fs) effects applied h = absurd (ground arith)

none_fails :
    (rs : List ScenarioStatus) → (length (filter is_fail (filter is_run rs)) ≡ 0) ↔ NoneFails rs
none_fails [] = (λ e. tt, λ h. refl)
none_fails (pass ∷ rs) =
    (λ e. (λ p. ground arith, (none_fails rs).0 e), λ (_, h). (none_fails rs).1 h)
none_fails (skipped ∷ rs) =
    (λ e. (λ p. ground arith, (none_fails rs).0 e), λ (_, h). (none_fails rs).1 h)
none_fails (fail ∷ rs) = (λ e. absurd (omega arith), λ (ne, _). absurd (ne refl))

some_run : (rs : List ScenarioStatus) → (1 ≤ length (filter is_run rs)) ↔ SomeRun rs
some_run [] = (λ e. absurd (omega arith), λ h. absurd h)
some_run (pass ∷ rs) = (λ e. inl (λ p. ground arith), λ h. omega arith)
some_run (fail ∷ rs) = (λ e. inl (λ p. ground arith), λ h. omega arith)
some_run (skipped ∷ rs) = (
  λ e. inr ((some_run rs).0 e),
  λ h. elim h [ inl ne ↦ absurd (ne refl) | inr r ↦ (some_run rs).1 r ],
)

-- A report has passed exactly when no scenario has failed and at least one was run.
pub passed_iff :
    (results : List ScenarioStatus) → (passed results ≡ true) ↔ NoneFails results × SomeRun results
unfolding passed
passed_iff results = (
  λ e. ((none_fails results).0 (ground arith), (some_run results).0 (ground arith)),
  λ (none_failed, some_ran).
      let none_counted = (none_fails results).1 none_failed in
      let counted = (some_run results).1 some_ran in ground (arith, none_counted, counted),
)
