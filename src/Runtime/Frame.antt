-- ===== src/Runtime/Frame.antt =====
-- Reasoning about actions. An action does no more to the world than a relation allows, and gives a
-- result with a property; both hold at a throw too, where nothing is said of a result.
use corrobo.Base.{Bool, true, false, ◌≡◌, refl, if◌then◌else◌}
use corrobo.Fault.{Fault, Outcome, ok, thrown}
use corrobo.Runtime.Monad.{World, Action, pure, raise, lift, guard, catching, ◌>>=◌, ◌>>◌}

-- What an action may do to the world, whatever it began with.
pub record Frame (S : Type 0) : Type 1 where
  pub Allowed : World S → World S → Type 0
  pub allowed_refl : (w : World S) → Allowed w w
  pub allowed_trans : (u v w : World S) → Allowed u v → Allowed v w → Allowed u w

abbrev pub Gives : {S A : Type 0} → (A → World S → Type 0) → Outcome A × World S → Type 0
Gives Q (ok a, w) = Q a w
Gives Q (thrown _, w) = Unit

-- From a world with `P` the action keeps to the frame, and what it returns has `Q`.
pub record Does {S A : Type 0} (fr : Frame S) (P : World S → Type 0) (m : Action S A)
    (Q : A → World S → Type 0) : Type 0 where
  pub at : (w : World S) → P w → fr.Allowed w (m w).1 × Gives Q (m w)

-- What an action returns from some world.
abbrev pub ReturnedBy : {S A : Type 0} → Action S A → A → Type 0
ReturnedBy {S} m a = (w : World S) × ((m w).0 ≡ ok a)

-- A property that the frame cannot break.
abbrev pub Stable : {S : Type 0} → Frame S → (World S → Type 0) → Type 0
Stable {S} fr P = (v w : World S) → fr.Allowed v w → P v → P w

abbrev pub Anything : {S A : Type 0} → A → World S → Type 0
Anything a w = Unit

pub Gives-Anything : {S A : Type 0} (o : Outcome A × World S) → Gives Anything o
Gives-Anything (ok a, w) = tt
Gives-Anything (thrown f, w) = tt

module _ {S : Type 0} (fr : Frame S) where
  bind_from :
      {A B : Type 0} {Q : A → World S → Type 0} {T : B → World S → Type 0} (f : A → Action S B)
      → ((a : A) → Does fr (Q a) (f a) T)
      → (w : World S) (o : Outcome A × World S) → fr.Allowed w o.1
      → Gives Q o
      → let r : Outcome B × World S = elim o.0 [ ok a ↦ f a o.1 | thrown e ↦ (thrown e, o.1) ] in
        fr.Allowed w r.1 × Gives T r
  bind_from f hf w (ok a, w') al g =
      let k = (hf a).at w' g in (fr.allowed_trans w w' (f a w').1 al k.0, k.1)
  bind_from f hf w (thrown e, w') al g = (al, tt)

  catching_from :
      {A : Type 0} {T : A → World S → Type 0} (f : Fault → Action S A)
      → ((e : Fault) → Does fr (λ w. Unit) (f e) T)
      → (w : World S) (o : Outcome A × World S) → fr.Allowed w o.1
      → Gives T o
      → let r : Outcome A × World S = elim o.0 [ ok a ↦ (ok a, o.1) | thrown e ↦ f e o.1 ] in
        fr.Allowed w r.1 × Gives T r
  catching_from f hf w (ok a, w') al g = (al, g)
  catching_from f hf w (thrown e, w') al g =
      let k = (hf e).at w' tt in (fr.allowed_trans w w' (f e w').1 al k.0, k.1)

module _ {S : Type 0} (fr : Frame S) {P : World S → Type 0} where
  pub pure_does :
      {A : Type 0} {Q : A → World S → Type 0} (a : A)
      → ((w : World S) → P w → Q a w)
      → Does fr P (pure a) Q
  unfolding pure
  pure_does a q = record { at = λ w p. (fr.allowed_refl w, q w p) }

  pub raise_does : {A : Type 0} {Q : A → World S → Type 0} (f : Fault) → Does fr P (raise f) Q
  unfolding raise
  raise_does f = record { at = λ w p. (fr.allowed_refl w, tt) }

  pub lift_does : {A : Type 0} (o : Outcome A) → Does fr P (lift o) (λ a w. P w × (o ≡ ok a))
  unfolding lift
  lift_does (ok a) = record { at = λ w p. (fr.allowed_refl w, (p, refl)) }
  lift_does (thrown f) = record { at = λ w p. (fr.allowed_refl w, tt) }

  pub bind_does :
      {A B : Type 0} {Q : A → World S → Type 0} {T : B → World S → Type 0} {m : Action S A}
      {f : A → Action S B}
      → Does fr P m Q
      → ((a : A) → Does fr (Q a) (f a) T)
      → Does fr P (m >>= f) T
  unfolding ◌>>=◌
  bind_does {m} {f} hm hf = record {
    at = λ w p. bind_from fr f hf w (m w) (hm.at w p).0 (hm.at w p).1;
  }

  pub then_does :
      {B : Type 0} {Q : Unit {0} → World S → Type 0} {T : B → World S → Type 0}
      {m : Action S (Unit {0})} {k : Action S B}
      → Does fr P m Q
      → ((u : Unit {0}) → Does fr (Q u) k T)
      → Does fr P (m >> k) T
  unfolding ◌>>◌
  then_does hm hk = bind_does hm hk

  pub guard_does : (b : Bool) (f : Fault) → Does fr P (guard b f) (λ u w. P w × (b ≡ true))
  unfolding guard
  guard_does true f = record { at = λ w p. (fr.allowed_refl w, (p, refl)) }
  guard_does false f = record { at = λ w p. (fr.allowed_refl w, tt) }

  pub catching_does :
      {A : Type 0} {T : A → World S → Type 0} {m : Action S A} {f : Fault → Action S A}
      → Does fr P m T
      → ((e : Fault) → Does fr (λ w. Unit) (f e) T)
      → Does fr P (catching m f) T
  unfolding catching
  catching_does {m} {f} hm hf = record {
    at = λ w p. catching_from fr f hf w (m w) (hm.at w p).0 (hm.at w p).1;
  }

  pub if_does :
      {A : Type 0} {T : A → World S → Type 0} (b : Bool) {m k : Action S A}
      → (b ≡ true → Does fr P m T)
      → (b ≡ false → Does fr P k T)
      → Does fr P (if b then m else k) T
  if_does true hm hk = hm refl
  if_does false hm hk = hk refl

  -- What the start shows of the program's values may be assumed.
  pub assuming :
      {A : Type 0} {F : Type 0} {Q : A → World S → Type 0} {m : Action S A}
      → ((w : World S) → P w → F)
      → (F → Does fr P m Q)
      → Does fr P m Q
  assuming hf hm = record { at = λ w p. (hm (hf w p)).at w p }

  -- A weaker start, or a weaker result.
  pub weaken :
      {A : Type 0} {P' : World S → Type 0} {Q T : A → World S → Type 0} {m : Action S A}
      → ((w : World S) → P w → P' w)
      → Does fr P' m Q
      → ((a : A) (w : World S) → Q a w → T a w)
      → Does fr P m T
  weaken {Q} {T} {m} hp hm ht = record {
    at = λ w p. ((hm.at w (hp w p)).0, gives_from (m w) (hm.at w (hp w p)).1);
  }
    where
      gives_from : (o : Outcome _ × World S) → Gives Q o → Gives T o
      gives_from (ok a, w) q = ht a w q
      gives_from (thrown e, w) q = tt

  -- What an action returns is something that it returns.
  pub witnessed :
      {A : Type 0} {Q : A → World S → Type 0} {m : Action S A}
      → Does fr P m Q
      → Does fr P m (λ a w. Q a w × ReturnedBy m a)
  witnessed {Q} {m} hm = record {
    at = λ w p. ((hm.at w p).0, gives_from w (m w) refl (hm.at w p).1);
  }
    where
      gives_from :
          (v : World S) (o : Outcome _ × World S)
          → (m v).0 ≡ o.0
          → Gives Q o
          → Gives (λ a w. Q a w × ReturnedBy m a) o
      gives_from v (ok a, w) e q = (q, (v, e))
      gives_from v (thrown f, w) e q = tt
