-- ===== src/Entropy/RansBit/Values/Digits.antt =====
-- Words of n bits reversed, split and joined, and copyBits32.
use native.Mathlib.Nat.{
  pow-suc, div-one, pow-succ', div-div-eq-div-mul, add_comm, mul-add-div_right, div-eq_of_lt,
  mod-eq_of_lt, div-add-mod',
}
use native.Mathlib.Nat.{mod-lt}
use go_draco.Common.{
  ℕ, zero, suc, ◌+◌, ◌-◌, ◌*◌, ◌/◌, ◌%◌, ◌^◌, ◌≤◌, ◌<◌, ◌≡◌, refl, sym, ap, ◌∙◌, inl, inr, Bool,
  Bool-cases, List, [], ◌∷◌, ◌++◌, arith, ltb, ◌==◌, if◌then◌else◌, ltb→ge, ne→==_false,
}
use go_draco.Common.Bits.{bit_or_shifted, bit_and_mask}
use go_draco.Entropy.RansBit.Digits.{low_bits, low_bits-above}
use go_draco.Entropy.RansBit.Values.{copy_bits32, reverse_bits}

-- The `n` low bits of `v`, the highest first.
unfoldable pub high_bits : ℕ → ℕ → List Bool
high_bits zero v = []
high_bits (suc n) v = (v / 2 ^ n % 2 == 1) ∷ high_bits n v

pub low_bits-reverse_bits : (n v : ℕ) → low_bits n (reverse_bits n v) ≡ high_bits n v
unfolding low_bits reverse_bits high_bits
low_bits-reverse_bits zero v = refl
low_bits-reverse_bits (suc n) v =
    let digit = mod-lt (v / 2 ^ n) {m = 2} (omega arith) in
    let low : (v / 2 ^ n % 2 + reverse_bits n v * 2) % 2 ≡ v / 2 ^ n % 2 = omega (arith, digit) in
    let high : (v / 2 ^ n % 2 + reverse_bits n v * 2) / 2 ≡ reverse_bits n v =
      omega (arith, digit) in
    rw (low, high) (ap (◌∷◌ (v / 2 ^ n % 2 == 1)) (low_bits-reverse_bits n v))

pub reverse_bits-lt : (n v : ℕ) → reverse_bits n v < 2 ^ n
unfolding reverse_bits
reverse_bits-lt zero v = omega arith
reverse_bits-lt (suc n) v =
    omega (arith, reverse_bits-lt n v, pow-suc 2 n, mod-lt (v / 2 ^ n) {m = 2} (omega arith))

from_zero : (n : ℕ) → 0 + n ≡ n
from_zero n = omega arith

from_suc : (m n : ℕ) → suc m + n ≡ suc (m + n)
from_suc m n = omega arith

pub reverse_bits-div : (k n v : ℕ) → reverse_bits (k + n) v / 2 ^ k ≡ reverse_bits n v
unfolding reverse_bits
reverse_bits-div zero n v =
    div-one (reverse_bits (0 + n) v) ∙ ap (λ k. reverse_bits k v) (from_zero n)
reverse_bits-div (suc k) n v =
    let digit = mod-lt (v / 2 ^ (k + n)) {m = 2} (omega arith) in
    let half : (v / 2 ^ (k + n) % 2 + reverse_bits (k + n) v * 2) / 2 ≡ reverse_bits (k + n) v =
      omega (arith, digit) in
    ap (λ j. reverse_bits j v / 2 ^ suc k) (from_suc k n)
    ∙ ap (λ p. reverse_bits (suc (k + n)) v / p) (pow-succ' 2 k)
    ∙ sym (div-div-eq-div-mul (reverse_bits (suc (k + n)) v) 2 (2 ^ k))
    ∙ ap (λ x. x / 2 ^ k) half
    ∙ reverse_bits-div k n v

pub low_bits-split : (m n v : ℕ) → low_bits (m + n) v ≡ low_bits m v ++ low_bits n (v / 2 ^ m)
unfolding low_bits
low_bits-split zero n v = ap (λ k. low_bits k v) (from_zero n) ∙ ap (low_bits n) (sym (div-one v))
low_bits-split (suc m) n v =
    ap (λ k. low_bits k v) (from_suc m n)
    ∙ ap (◌∷◌ (v % 2 == 1)) (
        low_bits-split m n (v / 2)
        ∙ ap (λ q. low_bits m (v / 2) ++ low_bits n q)
            (div-div-eq-div-mul v 2 (2 ^ m) ∙ ap (λ p. v / p) (sym (pow-succ' 2 m))))

pub low_bits-join :
    (m n v k : ℕ) → v < 2 ^ m → low_bits (m + n) (v + k * 2 ^ m) ≡ low_bits m v ++ low_bits n k
low_bits-join m n v k h =
    low_bits-split m n (v + k * 2 ^ m)
    ∙ rw (low_bits-above m v k) (
        ap (λ q. low_bits m v ++ low_bits n q)
          (ap (λ x. x / 2 ^ m) (add_comm v (k * 2 ^ m))
            ∙ mul-add-div_right (omega (arith, h)) k v
            ∙ ap (λ x. k + x) (div-eq_of_lt h)
            ∙ omega arith))

mask : (n : ℕ) → n ≤ 32 → (if ltb n 32 then 2 ^ n - 1 else 2 ^ 32 - 1) ≡ 2 ^ n - 1
mask n h = elim (Bool-cases (ltb n 32)) [
  | inl below ↦ rw below refl
  | inr at ↦
      let full : 32 ≡ n = omega (arith, h, ltb→ge n 32 at) in rw at (ap (λ k. 2 ^ k - 1) full)
]

-- What one call of copyBits32 puts on top of a word.
pub copy_bits32-eq :
    (m n v src k : ℕ)
    → n ≤ 32
    → src / 2 ^ k % 2 ^ n * 2 ^ m < 2 ^ 32
    → v < 2 ^ m
    → copy_bits32 v m src k n ≡ v + src / 2 ^ k % 2 ^ n * 2 ^ m
unfolding copy_bits32
copy_bits32-eq m zero v src k le small h = nothing (2 ^ m) ∙ ap (λ x. v + x * 2 ^ m) (omega arith)
  where
    nothing : (x : ℕ) → v ≡ v + 0 * x
    nothing x = omega arith
copy_bits32-eq m (suc n) v src k le small h =
    rw
      (
        ne→==_false (suc n) 0 (λ e. absurd (omega (arith, e))),
        mask (suc n) le,
        bit_and_mask (suc n) (src / 2 ^ k),
        mod-eq_of_lt {n = src / 2 ^ k % 2 ^ suc n * 2 ^ m} {m = 2 ^ 32} small,
        bit_or_shifted m v (src / 2 ^ k % 2 ^ suc n) h,
      )
      refl

pub low_bits-mod : (n v : ℕ) → low_bits n (v % 2 ^ n) ≡ low_bits n v
low_bits-mod n v =
    sym (low_bits-above n (v % 2 ^ n) (v / 2 ^ n))
    ∙ ap (low_bits n) (add_comm (v % 2 ^ n) (v / 2 ^ n * 2 ^ n) ∙ div-add-mod' v (2 ^ n))
