-- ===== src/Entropy/RansBit/Values/Reading.antt =====
-- DecodeLeastSignificantBits32 as calls of DecodeNextBit.
use go_draco.Entropy.RansBit.Values.Packing.{valid}
use go_draco.Entropy.RansBit.Digits.{digit}
use native.Mathlib.Nat.{
  one-le-pow, mul_assoc, pow-succ', pow-suc, mul-le-mul_right, pow-le-pow_right, div-add-mod',
  mod-eq_of_lt, mul-add-mod_self_right,
}
use native.Mathlib.Nat.{mod-lt}
use native.Mathlib.Nat.{add-mul}
use go_draco.Common.{
  ℕ, zero, suc, ◌+◌, ◌-◌, ◌*◌, ◌/◌, ◌%◌, ◌^◌, ◌≤◌, ◌<◌, ◌≡◌, refl, sym, ap, ◌∙◌, Bool, List, [],
  ◌∷◌, Option, none, some, arith, ◌==◌, Error,
}
use native.Mathlib.Nat.{mul-add-mod_self_right}
use go_draco.Common.Int.{ℤ}
use go_draco.Entropy.RansBit.{RansBitDecoder, decode_next_bit, bool_to_bit}
use go_draco.Entropy.RansBit.RoundTrip.{decode_bits}
use go_draco.Entropy.RansBit.Values.{
  decode_least_significant_bits32, decode_loop, decode_width, valid_width,
}
use go_draco.Entropy.RansBit.Values.Digits.{high_bits}

unfoldable pub from_high : ℕ → List Bool → ℕ
from_high result [] = result
from_high result (b ∷ bs) = from_high ((result * 2 + bool_to_bit b) % 2 ^ 32) bs

decode_loop-bits :
    (n result : ℕ) (d : RansBitDecoder)
    → decode_loop n result d ≡ (from_high result (decode_bits n d).0, (decode_bits n d).1)
unfolding decode_loop decode_bits from_high
decode_loop-bits zero result d = refl
decode_loop-bits (suc n) result d =
    decode_loop-bits n ((result * 2 + bool_to_bit (decode_next_bit d).0) % 2 ^ 32)
      (decode_next_bit d).1

regroup : (r q p m : ℕ) → (r * 2 + q) * p + m ≡ r * (2 * p) + (q * p + m)
regroup r q p m = omega (arith, add-mul (r * 2) q p, mul_assoc r 2 p)

-- The low digits of `v`, and the one above them.
mod-split : (n v : ℕ) → v / 2 ^ n % 2 * 2 ^ n + v % 2 ^ n ≡ v % 2 ^ suc n
mod-split n v =
    sym (mod-eq_of_lt {n = q * p + v % p} {m = 2 ^ suc n} below)
    ∙ sym (mul-add-mod_self_right (v / p / 2) (2 ^ suc n) (q * p + v % p))
    ∙ ap (λ x. x % 2 ^ suc n) whole
  where
    p : ℕ
    p = 2 ^ n

    q : ℕ
    q = v / 2 ^ n % 2

    below : q * p + v % p < 2 ^ suc n
    below =
        rw (pow-succ' 2 n)
          (omega (arith, mul-le-mul_right p q_le, mod-lt v {m = p} (one-le-pow n 2 (omega arith))))
      where
        q_le : q ≤ 1
        q_le = omega (arith, mod-lt (v / p) {m = 2} (omega arith))

    whole : v / p / 2 * 2 ^ suc n + (q * p + v % p) ≡ v
    whole =
        ap (λ x. v / p / 2 * x + (q * p + v % p)) (pow-succ' 2 n)
        ∙ sym (regroup (v / p / 2) q p (v % p))
        ∙ ap (λ x. x * p + v % p) digits
        ∙ div-add-mod' v p
      where
        digits : v / p / 2 * 2 + q ≡ v / p
        digits = div-add-mod' (v / p) 2

pub from_high-high_bits :
    (n result v : ℕ)
    → n ≤ 32
    → result < 2 ^ (32 - n)
    → from_high result (high_bits n v) ≡ result * 2 ^ n + v % 2 ^ n
unfolding from_high high_bits
from_high-high_bits zero result v h fits = omega arith
from_high-high_bits (suc n) result v h fits =
    ap (λ x. from_high x (high_bits n v)) step
    ∙ from_high-high_bits n (result * 2 + v / 2 ^ n % 2) v (omega (arith, h)) fits'
    ∙ regroup result (v / 2 ^ n % 2) (2 ^ n) (v % 2 ^ n)
    ∙ ap (λ x. result * x + (v / 2 ^ n % 2 * 2 ^ n + v % 2 ^ n)) (sym (pow-succ' 2 n))
    ∙ ap (λ x. result * 2 ^ suc n + x) (mod-split n v)
  where
    q_lt : v / 2 ^ n % 2 < 2
    q_lt = mod-lt (v / 2 ^ n) {m = 2} (omega arith)

    next : 32 - n ≡ suc (32 - suc n)
    next = omega (arith, h)

    fits' : result * 2 + v / 2 ^ n % 2 < 2 ^ (32 - n)
    fits' = rw (next, pow-suc 2 (32 - suc n)) (omega (arith, fits, q_lt))

    limit : 2 ^ (32 - n) ≤ 2 ^ 32
    limit = pow-le-pow_right {n = 2} (omega arith) {i = 32 - n} {j = 32} (omega arith)

    step : (result * 2 + bool_to_bit (v / 2 ^ n % 2 == 1)) % 2 ^ 32 ≡ result * 2 + v / 2 ^ n % 2
    step =
        ap (λ x. (result * 2 + x) % 2 ^ 32) (digit (v / 2 ^ n))
        ∙ mod-eq_of_lt {n = result * 2 + v / 2 ^ n % 2} {m = 2 ^ 32} (omega (arith, fits', limit))

decode-eq :
    (nbits : ℤ) (d : RansBitDecoder)
    → d.error ≡ none
    → decode_least_significant_bits32 nbits d ≡ decode_width (valid_width nbits) d
unfolding decode_least_significant_bits32
decode-eq nbits d h =
    ap
      (λ (x : Option Error). elim x as (λ y. Option ℕ × RansBitDecoder) [
        | none ↦ decode_width (valid_width nbits) d
        | some y ↦ (none, d)
      ])
      h

nothing : (a b : ℕ) → 0 * a + b ≡ b
nothing a b = omega arith

-- Where `n` calls of DecodeNextBit on a decoder with no error give the low `n` bits of `v`, highest
-- first, for a width `n` from 1 to 32, DecodeLeastSignificantBits32 returns those bits as a number and leaves
-- the same decoder.
pub decode_least_significant_bits32-high_bits :
    (n v : ℕ) (d d' : RansBitDecoder)
    → 0 < n
    → n ≤ 32
    → d.error ≡ none
    → decode_bits n d ≡ (high_bits n v, d')
    → decode_least_significant_bits32 (ℤ.pos n) d ≡ (some (v % 2 ^ n), d')
decode_least_significant_bits32-high_bits n v d d' pos few h reads =
    decode-eq (ℤ.pos n) d h
    ∙ rw (valid n pos few) (ap (λ (t : ℕ × RansBitDecoder). (some t.0, t.1)) run)
  where
    run : decode_loop n 0 d ≡ (v % 2 ^ n, d')
    run =
        decode_loop-bits n 0 d
        ∙ ap (λ (t : List Bool × RansBitDecoder). (from_high 0 t.0, t.1)) reads
        ∙ ap (λ x. (x, d'))
            (from_high-high_bits n 0 v few (one-le-pow (32 - n) 2 (omega arith))
              ∙ nothing (2 ^ n) (v % 2 ^ n))
