-- ===== src/Postgres/Key.antt =====
-- src/stores/postgres.ts: `advisoryLockKey`, the first eight bytes of a digest as a signed number.
use Prim.Native.Nat.{◌%◌, ◌^◌}
use native.Mathlib.Nat.{mod-lt, mod-eq_of_lt, zero-lt-suc, one-le-pow, pow-suc, mul-le-mul_right}
use corrobo.Base.{
  ℕ, zero, suc, ◌+◌, ◌-◌, ◌*◌, ◌<◌, ◌≤◌, refl, sym, ap, ◌∙◌, ◌≡◌, String, List, [], ◌∷◌,
  if◌then◌else◌, ltb, arith, length, ◌↔◌,
}

pub data ℤ : Type 0 where
  pos : ℕ → ℤ
  negsuc : ℕ → ℤ

-- `digest.readBigUInt64BE(0)`, of a digest that has as many bytes
unfoldable pub read_be : ℕ → ℕ → List ℕ → ℕ
read_be zero acc bytes = acc
read_be (suc n) acc [] = acc
read_be (suc n) acc (b ∷ bytes) = read_be n (acc * 256 + b) bytes

-- `BigInt.asIntN(64, n)`
unfoldable pub as_int_64 : ℕ → ℤ
as_int_64 n =
    let m = n % 18446744073709551616 in
    if ltb m 9223372036854775808 then pos m else negsuc (18446744073709551615 - m)

unfoldable pub advisory_lock_key : (String → List ℕ) → String → ℤ
unfolding read_be as_int_64
advisory_lock_key sha256 id = as_int_64 (read_be 8 0 (sha256 id))

abbrev pub AllBytes : List ℕ → Type 0
AllBytes [] = Unit
AllBytes (b ∷ bytes) = (b < 256) × AllBytes bytes

abbrev pub take : ℕ → List ℕ → List ℕ
take zero xs = []
take (suc n) [] = []
take (suc n) (x ∷ xs) = x ∷ take n xs

-- A number of Postgres' `bigint`.
abbrev pub FitsBigint : ℤ → Type 0
FitsBigint (pos n) = n < 9223372036854775808
FitsBigint (negsuc n) = n < 9223372036854775808

pub as_int_64-FitsBigint : (n : ℕ) → FitsBigint (as_int_64 n)
unfolding as_int_64
as_int_64-FitsBigint n = ground (arith, mod-lt n (zero-lt-suc 18446744073709551615))

pub as_int_64_injective :
    (m n : ℕ)
    → m < 18446744073709551616
    → n < 18446744073709551616
    → as_int_64 m ≡ as_int_64 n
    → m ≡ n
unfolding as_int_64
as_int_64_injective m n m_fits n_fits e = ground (arith, mod-eq_of_lt m_fits, mod-eq_of_lt n_fits)

scale : (acc p q : ℕ) → q ≡ p * 256 → (acc * 256 + 256) * p ≡ (acc + 1) * q
scale acc p q e = rw e (omega arith)

read_be-take : (n acc : ℕ) (xs : List ℕ) → read_be n acc (take n xs) ≡ read_be n acc xs
unfolding read_be
read_be-take zero acc xs = refl
read_be-take (suc n) acc [] = refl
read_be-take (suc n) acc (x ∷ xs) = read_be-take n (acc * 256 + x) xs

read_be_lt :
    (n acc : ℕ) (bytes : List ℕ) → AllBytes bytes → read_be n acc bytes < (acc + 1) * 256 ^ n
unfolding read_be
read_be_lt zero acc bytes h = omega arith
read_be_lt (suc n) acc [] h = grind (arith, one-le-pow (suc n) 256 (omega arith))
read_be_lt (suc n) acc (b ∷ bytes) (b_fits, h) =
    let below = read_be_lt n (acc * 256 + b) bytes h in
    let scaled : (acc * 256 + b + 1) * 256 ^ n ≤ (acc * 256 + 256) * 256 ^ n =
      mul-le-mul_right (256 ^ n) (omega arith) in
    grind (arith, below, scaled, scale acc (256 ^ n) (256 ^ suc n) (pow-suc 256 n))

pub read_be_injective :
    (n acc acc' : ℕ) (xs ys : List ℕ)
    → AllBytes xs
    → AllBytes ys
    → n ≤ length xs
    → n ≤ length ys
    → read_be n acc xs ≡ read_be n acc' ys
    → (acc ≡ acc') × (take n xs ≡ take n ys)
unfolding read_be
read_be_injective zero acc acc' xs ys hx hy lx ly e = (e, refl)
read_be_injective (suc n) acc acc' [] ys hx hy lx ly e = absurd (omega arith)
read_be_injective (suc n) acc acc' (x ∷ xs) [] hx hy lx ly e = absurd (omega arith)
read_be_injective (suc n) acc acc' (x ∷ xs) (y ∷ ys) (x_fits, hx) (y_fits, hy) lx ly e =
    let (top, rest) =
      read_be_injective n (acc * 256 + x) (acc' * 256 + y) xs ys hx hy (omega arith) (omega arith)
        e in
    let same : acc ≡ acc' = omega arith in
    let same_byte : x ≡ y = omega arith in (same, cc (same_byte, rest))

-- If a digest consists of at least eight bytes, the key of an identity is one of Postgres' `bigint`
-- values, and two identities have the same key exactly when the first eight bytes of their digests
-- are the same.
pub advisory_lock_key_identifies :
    (sha256 : String → List ℕ) (a b : String)
    → ((s : String) → AllBytes (sha256 s) × (8 ≤ length (sha256 s)))
    → FitsBigint (advisory_lock_key sha256 a)
      × ((advisory_lock_key sha256 a ≡ advisory_lock_key sha256 b)
          ↔ (take 8 (sha256 a) ≡ take 8 (sha256 b)))
unfolding advisory_lock_key
advisory_lock_key_identifies sha256 a b digest =
    let (a_bytes, a_long) = digest a in
    let (b_bytes, b_long) = digest b in
    (
      as_int_64-FitsBigint (read_be 8 0 (sha256 a)),
      (
        λ e.
            (read_be_injective 8 0 0 (sha256 a) (sha256 b) a_bytes b_bytes a_long b_long (
              as_int_64_injective _ _ (read_be_lt 8 0 (sha256 a) a_bytes)
                (read_be_lt 8 0 (sha256 b) b_bytes) e)).1,
        λ e.
            ap as_int_64 (
              sym (read_be-take 8 0 (sha256 a)) ∙ ap (read_be 8 0) e ∙ read_be-take 8 0 (sha256 b)),
      ),
    )
