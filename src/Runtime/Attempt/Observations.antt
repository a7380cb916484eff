-- ===== src/Runtime/Attempt/Observations.antt =====
-- src/core/runtime.ts `boundedObservations`: the history of an attempt's observations.
use corrobo.Base.{
  ℕ, zero, suc, ◌-◌, ◌≤◌, ◌<◌, ◌≡◌, refl, Option, none, some, List, [], ◌∷◌, length, drop,
  get_last?, arith, leb, false, leb→le, Bool-cases, inl, inr, ◌∙◌,
}
use corrobo.Value.{Value}
use corrobo.Runtime.Attempt.{bounded_observations}

abbrev pub first? : List Value → Option Value
first? [] = none
first? (x ∷ xs) = some x

length-drop : (n : ℕ) (xs : List Value) → length (drop n xs) ≡ length xs - n
length-drop zero xs = omega arith
length-drop (suc n) [] = omega arith
length-drop (suc n) (x ∷ xs) = omega (arith, length-drop n xs)

get_last?-drop : (n : ℕ) (xs : List Value) → n < length xs → get_last? (drop n xs) ≡ get_last? xs
get_last?-drop zero xs lt = refl
get_last?-drop (suc n) [] lt = elim lt [ ]
get_last?-drop (suc n) (x ∷ []) lt = absurd (omega arith)
get_last?-drop (suc n) (x ∷ y ∷ ys) lt = get_last?-drop n (y ∷ ys) (omega arith)

last_after : (x : Value) (xs : List Value) → 0 < length xs → get_last? (x ∷ xs) ≡ get_last? xs
last_after x [] lt = absurd (omega arith)
last_after x (y ∷ ys) lt = refl

more_than : (a b : ℕ) → leb a b ≡ false → b < a
more_than a b h = ground arith

-- At most twenty observations are kept of an attempt, the first and the latest one among them.
pub bounded_observations_bounded :
    (os : List Value)
    → (length (bounded_observations os) ≤ 20)
      × (first? (bounded_observations os) ≡ first? os)
      × (get_last? (bounded_observations os) ≡ get_last? os)
unfolding bounded_observations
bounded_observations_bounded [] = (omega arith, refl, refl)
bounded_observations_bounded (o ∷ os) = elim (Bool-cases (leb (length (o ∷ os)) 20)) [
  | inl within ↦ rw within (leb→le (length (o ∷ os)) 20 within, refl, refl)
  | inr above ↦
      let n : ℕ = length (o ∷ os) - 19 in
      let kept : length (drop n (o ∷ os)) ≡ 19 =
        omega (arith, length-drop n (o ∷ os), more_than (length (o ∷ os)) 20 above) in
      rw above (
        omega (arith, kept),
        refl,
        last_after o (drop n (o ∷ os)) (omega (arith, kept))
            ∙ get_last?-drop n (o ∷ os) (omega (arith, more_than (length (o ∷ os)) 20 above)),
      )
]
