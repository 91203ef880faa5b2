-- ===== src/Prelude/Bits.antt =====
-- `&` with a mask and `|` of disjoint fields, as arithmetic.
use Prim.Native.Nat.{
  ℕ, zero, suc, ◌+◌, ◌-◌, ◌*◌, ◌/◌, ◌%◌, ◌^◌, ◌≤◌, ◌<◌, min, max, bit_and, bit_or, digits,
  bit_and-bitwise, bit_or-bitwise,
}
use mathlib.Core.Path.{◌≡◌, refl, ap}
use native.Mathlib.Omega.{arith}
use native.Mathlib.Nat.{pow-suc, one-le-pow}

-- More fuel than the number needs changes nothing.
module _ (z : ℕ → ℕ) (op : ℕ → ℕ → ℕ) where
  digits-fuel : (n m a b : ℕ) → a ≤ n → a ≤ m → digits z op n a b ≡ digits z op m a b
  digits-fuel zero zero a b p q = refl
  digits-fuel zero (suc m) zero b p q = refl
  digits-fuel zero (suc m) (suc a) b p q = absurd (omega arith)
  digits-fuel (suc n) zero zero b p q = refl
  digits-fuel (suc n) zero (suc a) b p q = absurd (omega arith)
  digits-fuel (suc n) (suc m) zero b p q = refl
  digits-fuel (suc n) (suc m) (suc a) b p q =
      rw (digits-fuel n m (suc a / 2) (b / 2) (omega arith) (omega arith))

and_step : (a b : ℕ) → bit_and a b ≡ 2 * bit_and (a / 2) (b / 2) + min (a % 2) (b % 2)
and_step zero b = omega (arith, bit_and-bitwise 0 b, bit_and-bitwise 0 (b / 2))
and_step (suc a) b = omega (
  arith,
  bit_and-bitwise (suc a) b,
  bit_and-bitwise (suc a / 2) (b / 2),
  digits-fuel (λ _. 0) min a (suc a / 2) (suc a / 2) (b / 2) (omega arith) (omega arith),
)

or_step : (a b : ℕ) → bit_or a b ≡ 2 * bit_or (a / 2) (b / 2) + max (a % 2) (b % 2)
or_step zero b = omega (arith, bit_or-bitwise 0 b, bit_or-bitwise 0 (b / 2))
or_step (suc a) b = omega (
  arith,
  bit_or-bitwise (suc a) b,
  bit_or-bitwise (suc a / 2) (b / 2),
  digits-fuel (λ y. y) max a (suc a / 2) (suc a / 2) (b / 2) (omega arith) (omega arith),
)

and_zero-fuel : (n a : ℕ) → a ≤ n → bit_and a 0 ≡ 0
and_zero-fuel n zero h = refl
and_zero-fuel zero (suc a) h = absurd (omega arith)
and_zero-fuel (suc n) (suc a) h =
    omega (arith, and_step (suc a) 0, and_zero-fuel n (suc a / 2) (omega arith))

or_zero-fuel : (n a : ℕ) → a ≤ n → bit_or a 0 ≡ a
or_zero-fuel n zero h = refl
or_zero-fuel zero (suc a) h = absurd (omega arith)
or_zero-fuel (suc n) (suc a) h =
    omega (arith, or_step (suc a) 0, or_zero-fuel n (suc a / 2) (omega arith))

or_zero : (a : ℕ) → bit_or a 0 ≡ a
or_zero a = or_zero-fuel a a (omega arith)

pub bit_and-zero : (a : ℕ) → bit_and a 0 ≡ 0
bit_and-zero a = and_zero-fuel a a (omega arith)

pub zero-bit_or : (b : ℕ) → bit_or 0 b ≡ b
zero-bit_or b = bit_or-bitwise 0 b

mul_two_pow_suc : (q k : ℕ) → q * 2 ^ suc k ≡ 2 * (q * 2 ^ k)
mul_two_pow_suc q k = omega (arith, ap (λ (t : ℕ). q * t) (pow-suc 2 k))

-- A number in two fields, under a mask of the low field.
and_low-fields : (k q r : ℕ) → r < 2 ^ k → bit_and (q * 2 ^ k + r) (2 ^ k - 1) ≡ r
and_low-fields zero q r h = omega (arith, bit_and-zero (q * 1 + r))
and_low-fields (suc k) q r h = ground (
  arith,
  and_step (q * 2 ^ suc k + r) (2 ^ suc k - 1),
  mul_two_pow_suc q k,
  pow-suc 2 k,
  and_low-fields k q (r / 2) (omega (arith, pow-suc 2 k)),
)

-- `a & (2 ^ k - 1)`.
pub bit_and-low : (k a : ℕ) → bit_and a (2 ^ k - 1) ≡ a % 2 ^ k
bit_and-low k a = ground (arith, one-le-pow k 2, and_low-fields k (a / 2 ^ k) (a % 2 ^ k))

-- A number in two fields, under a mask of the high field.
and_high-fields :
    (k q r m : ℕ) → r < 2 ^ k → bit_and (q * 2 ^ k + r) (m * 2 ^ k) ≡ bit_and q m * 2 ^ k
and_high-fields zero q r m h =
    let e₁ : q * 1 + r ≡ q = omega arith in
    let e₂ : m * 1 ≡ m = omega arith in rw (e₁, e₂) (omega arith)
and_high-fields (suc k) q r m h = ground (
  arith,
  and_step (q * 2 ^ suc k + r) (m * 2 ^ suc k),
  mul_two_pow_suc q k,
  mul_two_pow_suc m k,
  mul_two_pow_suc (bit_and q m) k,
  pow-suc 2 k,
  and_high-fields k q (r / 2) m (omega (arith, pow-suc 2 k)),
)

-- `a & (m << k)`.
pub bit_and-high : (k a m : ℕ) → bit_and a (m * 2 ^ k) ≡ bit_and (a / 2 ^ k) m * 2 ^ k
bit_and-high k a m = ground (arith, one-le-pow k 2, and_high-fields k (a / 2 ^ k) (a % 2 ^ k) m)

-- `r | (q << k)` where `r` fits in `k` bits.
pub bit_or-fields : (k r q : ℕ) → r < 2 ^ k → bit_or r (q * 2 ^ k) ≡ q * 2 ^ k + r
bit_or-fields zero r q h =
    let e₁ : r ≡ 0 = omega arith in
    let e₂ : q * 1 ≡ q = omega arith in rw (e₁, e₂, zero-bit_or) (omega arith)
bit_or-fields (suc k) r q h = ground (
  arith,
  or_step r (q * 2 ^ suc k),
  mul_two_pow_suc q k,
  pow-suc 2 k,
  bit_or-fields k (r / 2) q (omega (arith, pow-suc 2 k)),
)

-- `x & 0xFFFFFFFFFFFFF000` on a uint64_t.
pub page_mask : (x : ℕ) → x < 2 ^ 64 → bit_and x 0xFFFFFFFFFFFFF000 ≡ x / 4096 * 4096
page_mask x h = omega (arith, bit_and-high 12 x (2 ^ 52 - 1), bit_and-low 52 (x / 4096))

-- `x & 0xFFFFFFFFFF000`.
pub frame_mask : (x : ℕ) → bit_and x 0xFFFFFFFFFF000 ≡ x / 4096 % 2 ^ 40 * 4096
frame_mask x = omega (arith, bit_and-high 12 x (2 ^ 40 - 1), bit_and-low 40 (x / 4096))

-- `(q << k) | r` where `r` fits in `k` bits.
pub fields-bit_or : (k r q : ℕ) → r < 2 ^ k → bit_or (q * 2 ^ k) r ≡ q * 2 ^ k + r
fields-bit_or zero r q h =
    omega (arith, ap (λ (t : ℕ). bit_or (q * 1) t) (zero_lem r h), or_zero (q * 1))
  where
    zero_lem : (r : ℕ) → r < 1 → r ≡ 0
    zero_lem r h = omega arith
fields-bit_or (suc k) r q h = ground (
  arith,
  or_step (q * 2 ^ suc k) r,
  mul_two_pow_suc q k,
  pow-suc 2 k,
  fields-bit_or k (r / 2) q (omega (arith, pow-suc 2 k)),
)

-- `a | b` on `k` bits.
pub bit_or-lt : (k a b : ℕ) → a < 2 ^ k → b < 2 ^ k → bit_or a b < 2 ^ k
bit_or-lt zero a b h h' =
    let e : a ≡ 0 = omega arith in let e' : b ≡ 0 = omega arith in rw (e, e') (omega arith)
bit_or-lt (suc k) a b h h' = ground (
  arith,
  or_step a b,
  pow-suc 2 k,
  bit_or-lt k (a / 2) (b / 2) (omega (arith, pow-suc 2 k)) (omega (arith, pow-suc 2 k)),
)
