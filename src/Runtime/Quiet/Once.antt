-- ===== src/Runtime/Quiet/Once.antt =====
-- Actions that execute at most once, and how they are composed.
use corrobo.Base.{◌≡◌, ap, ◌∙◌, ◌⊎◌, inl, inr, Bool, true, false, if◌then◌else◌}
use corrobo.Types.{ExecuteInput}
use corrobo.Fault.{Fault, Outcome, ok, thrown}
use corrobo.Base.{List, ◌∷◌}
use corrobo.Runtime.Monad.{World, Action, catching, ◌>>=◌}
use corrobo.Runtime.Frame.{Does, Anything}
use corrobo.Runtime.Quiet.{executions, leaving, Always}

-- The second list of executions is the first, or one execution more.
abbrev pub AtMostOneMore : List ExecuteInput → List ExecuteInput → Type 0
AtMostOneMore es es' = (es' ≡ es) ⊎ ((i : ExecuteInput) × (es' ≡ i ∷ es))

pub record Once {S A : Type 0} (m : Action S A) : Type 0 where
  pub once : (w : World S) → AtMostOneMore (executions w.calls) (executions (m w).1.calls)

unchanged_last :
    (es es' es'' : List ExecuteInput) → AtMostOneMore es es' → es'' ≡ es' → AtMostOneMore es es''
unchanged_last es es' es'' (inl e) q = inl (q ∙ e)
unchanged_last es es' es'' (inr (i, e)) q = inr (i, q ∙ e)

unchanged_first :
    (es es' es'' : List ExecuteInput) → es' ≡ es → AtMostOneMore es' es'' → AtMostOneMore es es''
unchanged_first es es' es'' q (inl e) = inl (e ∙ q)
unchanged_first es es' es'' q (inr (i, e)) = inr (i, e ∙ ap (λ x. i ∷ x) q)

module _ {S : Type 0} where
  abbrev pub Quiet : {A : Type 0} → Action S A → Type 0
  Quiet m = Does {S = S} (leaving executions) Always m Anything

  pub Quiet-Once : {A : Type 0} {m : Action S A} → Quiet m → Once m
  Quiet-Once q = record { once = λ w. inl (q.at w tt).0 }

  -- What executes may come first, and then nothing that does.
  Once-before_from :
      {A B : Type 0} (f : A → Action S B)
      → ((a : A) → Quiet (f a))
      → (es : List ExecuteInput) (o : Outcome A × World S) → AtMostOneMore es (executions o.1.calls)
      → let r : Outcome B × World S = elim o.0 [ ok a ↦ f a o.1 | thrown e ↦ (thrown e, o.1) ] in
        AtMostOneMore es (executions r.1.calls)
  Once-before_from f hf es (ok a, w) h =
      unchanged_last es (executions w.calls) _ h ((hf a).at w tt).0
  Once-before_from f hf es (thrown e, w) h = h

  pub Once-before :
      {A B : Type 0} {m : Action S A} {f : A → Action S B}
      → Once m
      → ((a : A) → Quiet (f a))
      → Once (m >>= f)
  unfolding ◌>>=◌
  Once-before {m} {f} hm hf = record {
    once = λ w. Once-before_from f hf (executions w.calls) (m w) (hm.once w);
  }

  -- Or what does not execute comes first.
  Once-after_from :
      {A B : Type 0} (f : A → Action S B)
      → ((a : A) → Once (f a))
      → (es : List ExecuteInput) (o : Outcome A × World S) → executions o.1.calls ≡ es
      → let r : Outcome B × World S = elim o.0 [ ok a ↦ f a o.1 | thrown e ↦ (thrown e, o.1) ] in
        AtMostOneMore es (executions r.1.calls)
  Once-after_from f hf es (ok a, w) h = unchanged_first es (executions w.calls) _ h ((hf a).once w)
  Once-after_from f hf es (thrown e, w) h = inl h

  pub Once-after :
      {A B : Type 0} {m : Action S A} {f : A → Action S B}
      → Quiet m
      → ((a : A) → Once (f a))
      → Once (m >>= f)
  unfolding ◌>>=◌
  Once-after {m} {f} hm hf = record {
    once = λ w. Once-after_from f hf (executions w.calls) (m w) (hm.at w tt).0;
  }

  Once-caught_from :
      {A : Type 0} (f : Fault → Action S A)
      → ((e : Fault) → Quiet (f e))
      → (es : List ExecuteInput) (o : Outcome A × World S) → AtMostOneMore es (executions o.1.calls)
      → let r : Outcome A × World S = elim o.0 [ ok a ↦ (ok a, o.1) | thrown e ↦ f e o.1 ] in
        AtMostOneMore es (executions r.1.calls)
  Once-caught_from f hf es (ok a, w) h = h
  Once-caught_from f hf es (thrown e, w) h =
      unchanged_last es (executions w.calls) _ h ((hf e).at w tt).0

  pub Once-caught :
      {A : Type 0} {m : Action S A} {f : Fault → Action S A}
      → Once m
      → ((e : Fault) → Quiet (f e))
      → Once (catching m f)
  unfolding catching
  Once-caught {m} {f} hm hf = record {
    once = λ w. Once-caught_from f hf (executions w.calls) (m w) (hm.once w);
  }

  pub Once-either :
      {A : Type 0} (b : Bool) {m k : Action S A} → Once m → Once k → Once (if b then m else k)
  Once-either true hm hk = hm
  Once-either false hm hk = hk
