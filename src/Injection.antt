-- ===== src/Injection.antt =====
-- src/testing/faults.ts: rules that say at which point of which attempt a delegate is to fail.
use corrobo.Base.{
  ℕ, ◌==◌, ◌≡◌, ◌≢◌, refl, arith, Bool-cases, inl, inr, Bool, true, false, ◌&&◌, Option, none, some,
  List, [], ◌∷◌, if◌then◌else◌,
}

pub data FaultKind : Type 0 where
  timeout network_error transient_error : FaultKind

pub data FaultPhase : Type 0 where
  before_effect after_effect on_observe : FaultPhase

pub record FaultRule : Type 0 where
  pub phase : FaultPhase
  pub attempt : ℕ
  pub fault : FaultKind

abbrev same_phase : FaultPhase → FaultPhase → Bool
same_phase before_effect before_effect = true
same_phase after_effect after_effect = true
same_phase on_observe on_observe = true
same_phase _ _ = false

-- `ruleFor`
unfoldable pub rule_for : List FaultRule → FaultPhase → ℕ → Option FaultRule
rule_for [] phase attempt = none
rule_for (r ∷ rules) phase attempt =
    if same_phase r.phase phase && (r.attempt == attempt)
    then some r
    else rule_for rules phase attempt

-- What a wrapped delegate gives: its own answer, or a `FaultError`.
pub data Wrapped (A : Type 0) : Type 0 where
  passed_on : A → Wrapped A
  injected : FaultKind → Wrapped A

module _ {S A B : Type 0} (delegate : A → S → B × S) (rules : List FaultRule) (attempt : ℕ) where
  abbrev lost : Option FaultRule → B × S → Wrapped B × S
  lost none (b, s) = (passed_on b, s)
  lost (some r) (b, s) = (injected r.fault, s)

  abbrev unless : Option FaultRule → A → S → Wrapped B × S
  unless (some r) a s = (injected r.fault, s)
  unless none a s = lost (rule_for rules after_effect attempt) (delegate a s)

  -- `withFaultInjection`
  unfoldable pub with_fault_injection : A → S → Wrapped B × S
  unfolding rule_for
  with_fault_injection a s = unless (rule_for rules before_effect attempt) a s

  abbrev read_unless : Option FaultRule → A → S → Wrapped B × S
  read_unless (some r) a s = (injected r.fault, s)
  read_unless none a s = lost none (delegate a s)

  -- `withObservationFault`
  unfoldable pub with_observation_fault : A → S → Wrapped B × S
  unfolding rule_for
  with_observation_fault a s = read_unless (rule_for rules on_observe attempt) a s

-- What the rules have for a phase of an attempt: the fault of the first rule that names both, if any.
pub data Strikes (phase : FaultPhase) (attempt : ℕ)
    : List FaultRule → Option FaultKind → Type 0 where
  nothing : Strikes phase attempt [] none
  first :
      (r : FaultRule) (rules : List FaultRule)
      → r.phase ≡ phase
      → r.attempt ≡ attempt
      → Strikes phase attempt (r ∷ rules) (some r.fault)
  later :
      (r : FaultRule) (rules : List FaultRule) (k : Option FaultKind)
      → ((r.phase ≡ phase) → r.attempt ≢ attempt)
      → Strikes phase attempt rules k
      → Strikes phase attempt (r ∷ rules) k

abbrev fault_of : Option FaultRule → Option FaultKind
fault_of none = none
fault_of (some r) = some r.fault

same_phase_refl : (p : FaultPhase) → same_phase p p ≡ true
same_phase_refl before_effect = refl
same_phase_refl after_effect = refl
same_phase_refl on_observe = refl

same_phase_eq : (p q : FaultPhase) → same_phase p q ≡ true → p ≡ q
same_phase_eq before_effect before_effect e = refl
same_phase_eq after_effect after_effect e = refl
same_phase_eq on_observe on_observe e = refl
same_phase_eq before_effect after_effect e = absurd (ground arith)
same_phase_eq before_effect on_observe e = absurd (ground arith)
same_phase_eq after_effect before_effect e = absurd (ground arith)
same_phase_eq after_effect on_observe e = absurd (ground arith)
same_phase_eq on_observe before_effect e = absurd (ground arith)
same_phase_eq on_observe after_effect e = absurd (ground arith)

rule_for_strikes :
    {phase : FaultPhase} {attempt : ℕ} {rules : List FaultRule} {k : Option FaultKind}
    → Strikes phase attempt rules k
    → fault_of (rule_for rules phase attempt) ≡ k
unfolding rule_for
rule_for_strikes nothing = refl
rule_for_strikes {phase = phase} {attempt = attempt} (first r rules p n) =
    ground (arith, p, n, same_phase_refl phase)
rule_for_strikes {phase = phase} {attempt = attempt} (later r rules k other rest) =
    elim (Bool-cases (same_phase r.phase phase)) [
      | inl same ↦
          let apart : r.attempt ≢ attempt = other (same_phase_eq r.phase phase same) in
          ground (arith, same, apart, rule_for_strikes rest)
      | inr differs ↦ rw differs (rule_for_strikes rest)
    ]

-- What is to come of a wrapped call with these faults before and after the effect.
abbrev pub Injected :
    {S A B : Type 0}
    → (A → S → B × S)
    → Option FaultKind
    → Option FaultKind
    → A
    → S
    → Wrapped B × S
    → Type 0
Injected delegate (some k) after a s out = (out.0 ≡ injected k) × (out.1 ≡ s)
Injected delegate none (some k) a s out = (out.0 ≡ injected k) × (out.1 ≡ (delegate a s).1)
Injected delegate none none a s out =
    (out.0 ≡ passed_on (delegate a s).0) × (out.1 ≡ (delegate a s).1)

unless-Injected :
    {S A B : Type 0} (delegate : A → S → B × S) (rules : List FaultRule) (attempt : ℕ)
    (before after : Option FaultRule) (a : A) (s : S)
    → rule_for rules after_effect attempt ≡ after
    → Injected delegate
        (fault_of before)
        (fault_of after)
        a
        s
        (unless delegate rules attempt before a s)
unless-Injected delegate rules attempt (some r) after a s e = (refl, refl)
unless-Injected delegate rules attempt none (some r) a s e = rw e (refl, refl)
unless-Injected delegate rules attempt none none a s e = rw e (refl, refl)

-- A delegate that is wrapped with rules does not run at all, and its target is left as it is, if the
-- first rule for the phase before the effect of this attempt strikes; if there is none but one for the
-- phase after it, the effect is there but the answer is lost; and with neither it is as if it were not
-- wrapped.
pub with_fault_injection-Injected :
    {S A B : Type 0} (delegate : A → S → B × S) (rules : List FaultRule) (attempt : ℕ) (a : A)
    (s : S) (before after : Option FaultKind)
    → Strikes before_effect attempt rules before
    → Strikes after_effect attempt rules after
    → Injected delegate before after a s (with_fault_injection delegate rules attempt a s)
unfolding with_fault_injection
with_fault_injection-Injected delegate rules attempt a s before after b f =
    rw (← rule_for_strikes b, ← rule_for_strikes f)
      (unless-Injected delegate rules attempt (rule_for rules before_effect attempt)
        (rule_for rules after_effect attempt) a s refl)
