-- ===== src/Base/Lists.antt =====
-- Optional values and arrays, as the source uses them.
use Prim.Native.Nat.{ℕ, zero, suc}
use mathlib.Core.Path.{◌≡◌, refl, ap}
use mathlib.Core.Bool.{Bool, true, false}
use mathlib.Core.Option.{Option, none, some}
use mathlib.Core.List.{List, [], ◌∷◌}
use native.Mathlib.Omega.{arith}

module _ {ℓ} {A : Type ℓ} where
  abbrev pub is_some : Option A → Bool
  is_some none = false
  is_some (some _) = true

  -- `o ?? a`
  abbrev pub get_or : Option A → A → A
  get_or none a = a
  get_or (some b) _ = b

  -- `o ?? p` where `p` may be missing too
  abbrev pub or_else : Option A → Option A → Option A
  or_else none p = p
  or_else (some a) _ = some a

  abbrev pub length : List A → ℕ
  length [] = 0
  length (_ ∷ xs) = suc (length xs)

  -- `xs[xs.length - 1]`
  abbrev pub get_last? : List A → Option A
  get_last? [] = none
  get_last? (x ∷ xs) = elim xs [ [] ↦ some x | y ∷ ys ↦ get_last? xs ]

  -- `xs[xs.length - 1] = a`, on an array that has an element
  abbrev pub set_last : List A → A → List A
  set_last [] _ = []
  set_last (x ∷ xs) a = elim xs [ [] ↦ a ∷ [] | y ∷ ys ↦ x ∷ set_last xs a ]

  abbrev pub drop : ℕ → List A → List A
  drop zero xs = xs
  drop (suc n) [] = []
  drop (suc n) (x ∷ xs) = drop n xs

  -- `xs.push(a)`
  abbrev pub push : List A → A → List A
  push [] a = a ∷ []
  push (x ∷ xs) a = x ∷ push xs a

  pub length-push : (xs : List A) (a : A) → length (push xs a) ≡ suc (length xs)
  length-push [] a = refl
  length-push (x ∷ xs) a = omega (arith, length-push xs a)

  pub length-set_last : (xs : List A) (a : A) → length (set_last xs a) ≡ length xs
  length-set_last [] a = refl
  length-set_last (x ∷ []) a = refl
  length-set_last (x ∷ y ∷ ys) a = omega (arith, length-set_last (y ∷ ys) a)

  pub get_last?-push : (xs : List A) (a : A) → get_last? (push xs a) ≡ some a
  get_last?-push [] a = refl
  get_last?-push (x ∷ []) a = refl
  get_last?-push (x ∷ y ∷ ys) a = get_last?-push (y ∷ ys) a

  pub get_last?-set_last :
      (xs : List A) {b : A} (a : A) → get_last? xs ≡ some b → get_last? (set_last xs a) ≡ some a
  get_last?-set_last [] a h = ground arith
  get_last?-set_last (x ∷ []) a h = refl
  get_last?-set_last (x ∷ y ∷ []) a h = refl
  get_last?-set_last (x ∷ y ∷ z ∷ ys) a h = get_last?-set_last (y ∷ z ∷ ys) a h

  pub set_last-set_last : (xs : List A) (a b : A) → set_last (set_last xs a) b ≡ set_last xs b
  set_last-set_last [] a b = refl
  set_last-set_last (x ∷ []) a b = refl
  set_last-set_last (x ∷ y ∷ []) a b = refl
  set_last-set_last (x ∷ y ∷ z ∷ ys) a b = ap (λ t. x ∷ t) (set_last-set_last (y ∷ z ∷ ys) a b)

  pub set_last-push : (xs : List A) (a b : A) → set_last (push xs a) b ≡ push xs b
  set_last-push [] a b = refl
  set_last-push (x ∷ []) a b = refl
  set_last-push (x ∷ y ∷ ys) a b = ap (λ t. x ∷ t) (set_last-push (y ∷ ys) a b)
