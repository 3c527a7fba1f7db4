-- ===== src/Common/Bits.antt =====
-- `&` with a mask of ones and `|` of numbers without a common digit, as arithmetic at variables.
use Prim.Native.Nat.{ℕ, zero, suc, ◌+◌, ◌-◌, ◌*◌, ◌/◌, ◌%◌, ◌^◌, ◌≤◌, ◌<◌, min, max}
use Prim.Native.Nat.{bit_and, bit_or, digits, bit_and-bitwise, bit_or-bitwise}
use mathlib.Core.Path.{◌≡◌, refl, ap}
use mathlib.Core.Bool.{Bool, true, ◌&&◌}
use go_draco.Common.Tests.{◌==◌}
use native.Mathlib.Numerals.{towards_suc}
use native.Mathlib.Nat.{pow-suc, one-le-pow}
use native.Mathlib.Omega.{arith}

-- One more digit than needed changes nothing.
module _ (op : ℕ → ℕ → ℕ) (rest : ℕ → ℕ)
    (at_zero : (b : ℕ) → rest b ≡ rest (b / 2) * 2 + op 0 (b % 2)) where
  fuel_enough : (n m a b : ℕ) → a ≤ n → a ≤ m → digits rest op n a b ≡ digits rest op m a b
  fuel_enough zero zero a b p q = refl
  fuel_enough zero (suc m) zero b p q = refl
  fuel_enough zero (suc m) (suc a) b p q = absurd (omega arith)
  fuel_enough (suc n) zero zero b p q = refl
  fuel_enough (suc n) zero (suc a) b p q = absurd (omega arith)
  fuel_enough (suc n) (suc m) zero b p q = refl
  fuel_enough (suc n) (suc m) (suc a) b p q =
      omega (arith, fuel_enough n m (suc a / 2) (b / 2) (omega arith) (omega arith))

-- The laws of the lowest digit.
and_step : (a b : ℕ) → bit_and a b ≡ bit_and (a / 2) (b / 2) * 2 + min (a % 2) (b % 2)
and_step zero b = omega (arith, bit_and-bitwise 0 b, bit_and-bitwise 0 (b / 2))
and_step (suc a) b = omega (
  arith,
  bit_and-bitwise (suc a) b,
  bit_and-bitwise (suc a / 2) (b / 2),
  fuel_enough min (λ b. zero) (λ b. omega arith) a (suc a / 2) (suc a / 2) (b / 2) (omega arith)
      (omega arith),
)

or_step : (a b : ℕ) → bit_or a b ≡ bit_or (a / 2) (b / 2) * 2 + max (a % 2) (b % 2)
or_step zero b = omega (arith, bit_or-bitwise 0 b, bit_or-bitwise 0 (b / 2))
or_step (suc a) b = omega (
  arith,
  bit_or-bitwise (suc a) b,
  bit_or-bitwise (suc a / 2) (b / 2),
  fuel_enough max (λ b. b) (λ b. omega arith) a (suc a / 2) (suc a / 2) (b / 2) (omega arith)
      (omega arith),
)

zero-or : (b : ℕ) → bit_or 0 b ≡ b
zero-or b = bit_or-bitwise 0 b

and-zero_below : (n a : ℕ) → a ≤ n → bit_and a 0 ≡ 0
and-zero_below n zero h = refl
and-zero_below zero (suc a) h = absurd (omega arith)
and-zero_below (suc n) (suc a) h =
    omega (arith, and_step (suc a) 0, and-zero_below n (suc a / 2) (omega arith))

or-zero_below : (n a : ℕ) → a ≤ n → bit_or a 0 ≡ a
or-zero_below n zero h = refl
or-zero_below zero (suc a) h = absurd (omega arith)
or-zero_below (suc n) (suc a) h =
    omega (arith, or_step (suc a) 0, or-zero_below n (suc a / 2) (omega arith))

double_mul : (q k : ℕ) → q * 2 ^ suc k ≡ 2 * (q * 2 ^ k)
double_mul q k = omega (arith, ap (λ (t : ℕ). q * t) (pow-suc 2 k))

-- `r | q << k` is a sum when `r` has `k` digits at most.
pub bit_or_shifted : (k r q : ℕ) → r < 2 ^ k → bit_or r (q * 2 ^ k) ≡ r + q * 2 ^ k
bit_or_shifted zero r q h = ground (arith, zero-or (q * 1))
bit_or_shifted (suc k) r q h =
    ground
      (arith, or_step r (q * 2 ^ suc k), double_mul q k, pow-suc 2 k, bit_or_shifted k (r / 2) q)

-- The same with the low digits on the right.
pub bit_or_low : (k r q : ℕ) → r < 2 ^ k → bit_or (q * 2 ^ k) r ≡ r + q * 2 ^ k
bit_or_low zero zero q h = omega (arith, or-zero_below (q * 1) (q * 1) (omega arith))
bit_or_low zero (suc r) q h = absurd (omega (arith, h))
bit_or_low (suc k) r q h =
    ground (arith, or_step (q * 2 ^ suc k) r, double_mul q k, pow-suc 2 k, bit_or_low k (r / 2) q)

and_fields : (k q r : ℕ) → r < 2 ^ k → bit_and (q * 2 ^ k + r) (2 ^ k - 1) ≡ r
and_fields zero q r h = omega (arith, and-zero_below (q * 1 + r) (q * 1 + r) (omega arith))
and_fields (suc k) q r h = ground (
  arith,
  and_step (q * 2 ^ suc k + r) (2 ^ suc k - 1),
  double_mul q k,
  pow-suc 2 k,
  one-le-pow k 2,
  and_fields k q (r / 2),
)

-- A mask of `k` ones keeps the remainder by `2 ^ k`.
pub bit_and_mask : (k a : ℕ) → bit_and a (2 ^ k - 1) ≡ a % 2 ^ k
bit_and_mask k a = ground (arith, one-le-pow k 2, and_fields k (a / 2 ^ k) (a % 2 ^ k))

-- Over a small range, every value is checked by evaluation.
same_below : (ℕ → ℕ) → (ℕ → ℕ) → ℕ → Bool
same_below f g zero = true
same_below f g (suc n) = (f n == g n) && same_below f g n

same_below_sound : (f g : ℕ → ℕ) (n : ℕ) → same_below f g n ≡ true → (x : ℕ) → x < n → f x ≡ g x
unfolding same_below
same_below_sound f g zero e x h = absurd (omega arith)
same_below_sound f g (suc n) e x h = ground (arith, same_below_sound f g n (ground arith) x)

pub bit_or_top : (b : ℕ) → b < 128 → bit_or b 0x80 ≡ b + 128
unfolding same_below
bit_or_top = same_below_sound _ _ 128 refl

pub bit_and_top : (b : ℕ) → b < 256 → bit_and b 0x80 ≡ b / 128 * 128
unfolding same_below
bit_and_top = same_below_sound _ _ 256 refl

pub pow-add_seven : (s : ℕ) → 2 ^ (s + 7) ≡ 128 * 2 ^ s
pow-add_seven s = simp towards_suc (omega arith)

pub bit_and_one : (a : ℕ) → bit_and a 1 ≡ a % 2
bit_and_one a = bit_and_mask 1 a

pub bit_or_one : (a : ℕ) → bit_or (2 * a) 1 ≡ 2 * a + 1
bit_or_one a = ground (arith, or_step (2 * a) 1, or-zero_below a a (omega arith))

-- A tag in the two top bits of a byte.
pub bit_or_tag1 : (x : ℕ) → x < 64 → bit_or 64 x ≡ 64 + x
unfolding same_below
bit_or_tag1 = same_below_sound _ _ 64 refl

pub bit_or_tag2 : (x : ℕ) → x < 64 → bit_or 128 x ≡ 128 + x
unfolding same_below
bit_or_tag2 = same_below_sound _ _ 64 refl

pub bit_or_tag3 : (x : ℕ) → x < 64 → bit_or 192 x ≡ 192 + x
unfolding same_below
bit_or_tag3 = same_below_sound _ _ 64 refl

pub low_six : (x : ℕ) → bit_and x 0x3f ≡ x % 64
low_six x = bit_and_mask 6 x
