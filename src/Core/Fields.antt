-- ===== src/Core/Fields.antt =====
-- Fields of bits in a number: quotients and remainders by products and by powers of two.
use go_draco.Common.{
  ℕ, zero, suc, ◌+◌, ◌-◌, ◌*◌, ◌/◌, ◌%◌, ◌^◌, ◌≤◌, ◌<◌, ◌≡◌, refl, sym, ap, ◌∙◌, arith,
}
use native.Mathlib.Nat.{
  mul_assoc, mul_comm, add-mul-div_right, add-mul-mod_self_right, add-zero, mul-le-mul_right,
  one-le-pow, div-add-mod', pow-suc, suc-mul, add-mul, div-eq_of_lt, mod-mod, div-div-eq-div-mul,
  mod-lt, mod-eq_of_lt,
}

pub pow_add : (m n : ℕ) → 2 ^ (m + n) ≡ 2 ^ m * 2 ^ n
pow_add m zero = ap (λ k. 2 ^ k) (add-zero m) ∙ one_more (2 ^ m)
  where
    one_more : (x : ℕ) → x ≡ x * 1
    one_more x = omega arith
pow_add m (suc n) =
    ap (λ k. 2 ^ k) (later m n)
    ∙ pow-suc 2 (m + n)
    ∙ ap (λ x. x * 2) (pow_add m n)
    ∙ mul_assoc (2 ^ m) (2 ^ n) 2
    ∙ ap (λ x. 2 ^ m * x) (sym (pow-suc 2 n))
  where
    later : (a b : ℕ) → a + suc b ≡ suc (a + b)
    later a b = omega arith

pub shifted-lt : (m k v b : ℕ) → v < 2 ^ m → b < 2 ^ k → v + b * 2 ^ m < 2 ^ (m + k)
shifted-lt m k v b hv hb =
    rw (pow_add m k, mul_comm (2 ^ m) (2 ^ k))
      (omega (arith, hv, mul-le-mul_right (2 ^ m) hb, suc-mul b (2 ^ m)))

pub pow_positive : (n : ℕ) → 0 < 2 ^ n
pow_positive n = one-le-pow n 2 (omega arith)

-- A remainder by a product, from the digits by its factors.
mod_mul : (a b x : ℕ) → 0 < a → 0 < b → x % (a * b) ≡ x % a + x / a % b * a
mod_mul a b x ha hb =
    ap (λ y. y % (a * b)) whole
    ∙ add-mul-mod_self_right (x % a + x / a % b * a) (x / a / b) (a * b)
    ∙ mod-eq_of_lt below
  where
    whole : x ≡ x % a + x / a % b * a + x / a / b * (a * b)
    whole = omega (
      arith,
      div-add-mod' x a,
      ap (λ q. q * a) (div-add-mod' (x / a) b),
      add-mul (x / a / b * b) (x / a % b) a,
      mul_assoc (x / a / b) b a,
      ap (λ t. x / a / b * t) (mul_comm b a),
    )

    below : x % a + x / a % b * a < a * b
    below = omega (
      arith,
      mod-lt x ha,
      mul-le-mul_right a (mod-lt (x / a) hb),
      suc-mul (x / a % b) a,
      mul_comm a b,
    )

pub mod-pow_add : (m n x : ℕ) → x % 2 ^ (m + n) ≡ x % 2 ^ m + x / 2 ^ m % 2 ^ n * 2 ^ m
mod-pow_add m n x = rw (pow_add m n) (mod_mul (2 ^ m) (2 ^ n) x (pow_positive m) (pow_positive n))

-- A field of `n` bits from bit `s` on lies in the low `s + n` bits.
pub field_low : (s n x : ℕ) → x % 2 ^ (s + n) / 2 ^ s ≡ x / 2 ^ s % 2 ^ n
field_low s n x = rw (mod-pow_add s n x) (
    add-mul-div_right (x % 2 ^ s) (x / 2 ^ s % 2 ^ n) (pow_positive s)
    ∙ rw (div-eq_of_lt (mod-lt x (pow_positive s))) (omega arith))

pub mod-mod_pow : (m k x : ℕ) → x % 2 ^ (m + k) % 2 ^ m ≡ x % 2 ^ m
mod-mod_pow m k x =
    rw (mod-pow_add m k x)
      (add-mul-mod_self_right (x % 2 ^ m) (x / 2 ^ m % 2 ^ k) (2 ^ m) ∙ mod-mod x (2 ^ m))

-- The field is the same in any number of low bits that holds it.
field_of_low : (s n k x : ℕ) → x % 2 ^ (s + n + k) / 2 ^ s % 2 ^ n ≡ x / 2 ^ s % 2 ^ n
field_of_low s n k x =
    sym (field_low s n (x % 2 ^ (s + n + k)))
    ∙ ap (λ y. y / 2 ^ s) (mod-mod_pow (s + n) k x)
    ∙ field_low s n x

-- The same for a number of low bits that is given by a bound.
pub low_field : (s n m x : ℕ) → s + n ≤ m → x % 2 ^ m / 2 ^ s % 2 ^ n ≡ x / 2 ^ s % 2 ^ n
low_field s n m x h =
    ap (λ k. x % 2 ^ k / 2 ^ s % 2 ^ n) (omega (arith, h)) ∙ field_of_low s n (m - (s + n)) x

pub div-pow_add : (m n x : ℕ) → x / 2 ^ (m + n) ≡ x / 2 ^ m / 2 ^ n
div-pow_add m n x = ap (λ p. x / p) (pow_add m n) ∙ sym (div-div-eq-div-mul x (2 ^ m) (2 ^ n))

-- A byte is eight bits.
pub pow-bytes : (k : ℕ) → 256 ^ k ≡ 2 ^ (8 * k)
pow-bytes zero = refl
pow-bytes (suc k) =
    pow-suc 256 k
    ∙ ap (λ x. x * 256) (pow-bytes k)
    ∙ sym (pow_add (8 * k) 8)
    ∙ ap (λ j. 2 ^ j) (omega arith)
