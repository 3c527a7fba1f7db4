-- ===== src/Core/BitPacking/Writing.antt =====
-- What BitWriter holds: the bits written so far, as a number, in as few bytes as hold them.
use go_draco.Common.Bits.{bit_or_shifted, bit_and_one, bit_and_mask}
use native.Mathlib.Nat.{
  add-mul-div_right, div-div-eq-div-mul, mul_assoc, mul_comm, pow-succ', div-eq_of_lt, mod-one,
  add-mul,
}
use go_draco.Core.Fields.{pow_add, pow_positive, mod-pow_add, div-pow_add}
use go_draco.Core.Fields.{pow-bytes}
use native.Mathlib.Nat.{mod-eq_of_lt}
use native.Mathlib.Nat.{pow-le-pow_right}
use native.Mathlib.Nat.{div-lt_iff_lt-mul}
use native.Mathlib.Nat.{pow-suc}
use native.Mathlib.Nat.{div-one}
use go_draco.Core.Words.{le_bytes, length-le_bytes}
use go_draco.Core.BitWriter.{new_bit_writer, write_bit, write_bits}
use go_draco.Core.BitWriter.{BitWriter}
use mathlib.Core.Path.{subst}
use go_draco.Common.{
  ℕ, zero, suc, ◌+◌, ◌*◌, ◌/◌, ◌%◌, ◌^◌, ◌≤◌, ◌<◌, ◌≡◌, refl, sym, ap, ◌∙◌, inl, inr, Bool-cases,
  List, [], ◌∷◌, ◌++◌, length, get_or, set, get_or-append_end, arith, leb, ◌==◌, if◌then◌else◌,
  leb→le, ==_iff, bit_or, leb→gt,
}

pub record Holds (v : ℕ) (w : BitWriter) : Type 0 where
  pub below : v < 2 ^ w.bit_offset
  pub packed : w.buf ≡ le_bytes ((w.bit_offset + 7) / 8) v

pub new_bit_writer-Holds : (n : ℕ) → Holds 0 (new_bit_writer n)
unfolding new_bit_writer le_bytes
new_bit_writer-Holds n = record { below = omega arith; packed = refl }

le_bytes-snoc : (k v : ℕ) → le_bytes (suc k) v ≡ le_bytes k v ++ ((v / 256 ^ k % 256) ∷ [])
unfolding le_bytes
le_bytes-snoc zero v = ap (λ q. (q % 256) ∷ []) (sym (div-one v))
le_bytes-snoc (suc k) v = ap (◌∷◌ (v % 256)) (
    le_bytes-snoc k (v / 256)
    ∙ ap (λ q. le_bytes k (v / 256) ++ ((q % 256) ∷ []))
        (div-div-eq-div-mul v 256 (256 ^ k) ∙ ap (λ x. v / x) (sym (pow-succ' 256 k))))

-- Only the low bytes matter.
le_bytes-above : (k v q : ℕ) → le_bytes k (v + q * 256 ^ k) ≡ le_bytes k v
unfolding le_bytes
le_bytes-above zero v q = refl
le_bytes-above (suc k) v q = rw (up, low, high) (ap (◌∷◌ (v % 256)) (le_bytes-above k (v / 256) q))
  where
    up : q * 256 ^ suc k ≡ q * 256 ^ k * 256
    up = ap (λ x. q * x) (pow-suc 256 k) ∙ sym (mul_assoc q (256 ^ k) 256)

    low : (v + q * 256 ^ k * 256) % 256 ≡ v % 256
    low = omega arith

    high : (v + q * 256 ^ k * 256) / 256 ≡ v / 256 + q * 256 ^ k
    high = omega arith

set_last : (xs : List ℕ) (x y : ℕ) → set (xs ++ (x ∷ [])) (length xs) y ≡ xs ++ (y ∷ [])
set_last [] x y = refl
set_last (z ∷ xs) x y = ap (◌∷◌ z) (set_last xs x y)

module _ (i j v : ℕ) (inside : j < 8) (below : v < 2 ^ (8 * i + j)) where
  top : v / 256 ^ i < 2 ^ j
  top =
      (div-lt_iff_lt-mul (rw (pow-bytes i) (pow_positive (8 * i)))).1
        (rw (pow-bytes i) (omega (arith, below, pow_add (8 * i) j, mul_comm (2 ^ (8 * i)) (2 ^ j))))

  room : 2 ^ suc j ≤ 256
  room = pow-le-pow_right {n = 2} (omega arith) {i = suc j} {j = 8} (omega (arith, inside))

  last_byte : le_bytes (suc i) v ≡ le_bytes i v ++ ((v / 256 ^ i) ∷ [])
  last_byte =
      le_bytes-snoc i v
      ∙ ap (λ b. le_bytes i v ++ (b ∷ []))
          (mod-eq_of_lt {n = v / 256 ^ i} {m = 256} (omega (arith, top, room, pow-suc 2 j)))

  base_positive : 0 < 256 ^ i
  base_positive = rw (pow-bytes i) (pow_positive (8 * i))

  whole : v + 2 ^ (8 * i + j) ≡ v + 2 ^ j * 256 ^ i
  whole = rw (pow_add (8 * i) j, pow-bytes i, mul_comm (2 ^ (8 * i)) (2 ^ j)) refl

  next_top : (v + 2 ^ (8 * i + j)) / 256 ^ i ≡ v / 256 ^ i + 2 ^ j
  next_top = rw whole (add-mul-div_right v (2 ^ j) base_positive)

  next_byte : le_bytes (suc i) (v + 2 ^ (8 * i + j)) ≡ le_bytes i v ++ ((v / 256 ^ i + 2 ^ j) ∷ [])
  next_byte =
      le_bytes-snoc i (v + 2 ^ (8 * i + j))
      ∙ rw
          (
            next_top,
            whole,
            le_bytes-above i v (2 ^ j),
            mod-eq_of_lt {n = v / 256 ^ i + 2 ^ j} {m = 256}
                (omega (arith, top, room, pow-suc 2 j)),
          )
          refl

  get_last : get_or (le_bytes (suc i) v) i 0 ≡ v / 256 ^ i
  get_last = rw last_byte (
      ap (λ k. get_or (le_bytes i v ++ ((v / 256 ^ i) ∷ [])) k 0) (sym (length-le_bytes i v))
      ∙ get_or-append_end (le_bytes i v) ((v / 256 ^ i) ∷ []) 0)

  -- Setting bit `j` of byte `i`, where all bits from it on are zero.
  pub set_bit :
      set (le_bytes (suc i) v) i (bit_or (get_or (le_bytes (suc i) v) i 0) (2 ^ j))
      ≡ le_bytes (suc i) (v + 2 ^ (8 * i + j))
  set_bit =
      ap (λ b. set (le_bytes (suc i) v) i b) (ap (λ b. bit_or b (2 ^ j)) get_last ∙ one_bit)
      ∙ rw (last_byte, next_byte)
          (ap (λ k. set (le_bytes i v ++ ((v / 256 ^ i) ∷ [])) k (v / 256 ^ i + 2 ^ j))
              (sym (length-le_bytes i v))
            ∙ set_last (le_bytes i v) (v / 256 ^ i) (v / 256 ^ i + 2 ^ j))
    where
      one_bit : bit_or (v / 256 ^ i) (2 ^ j) ≡ v / 256 ^ i + 2 ^ j
      one_bit =
          ap (bit_or (v / 256 ^ i)) (omega arith)
          ∙ bit_or_shifted j (v / 256 ^ i) 1 top
          ∙ omega arith

-- The slice after the append of a byte where one is missing.
grown-eq :
    (v : ℕ) (w : BitWriter)
    → Holds v w
    → (if leb (length w.buf) (w.bit_offset / 8) then w.buf ++ (0 ∷ []) else w.buf)
      ≡ le_bytes (suc (w.bit_offset / 8)) v
grown-eq v w h = elim (Bool-cases (leb (length w.buf) (w.bit_offset / 8))) [
  | inl full ↦
      let count : (w.bit_offset + 7) / 8 ≡ w.bit_offset / 8 = omega (
        arith,
        leb→le (length w.buf) (w.bit_offset / 8) full,
        ap length h.packed,
        length-le_bytes ((w.bit_offset + 7) / 8) v,
      ) in
      let small : v < 256 ^ (w.bit_offset / 8) =
        rw (pow-bytes (w.bit_offset / 8)) (subst (λ k. v < 2 ^ k) (omega (arith, count)) h.below) in
      rw full (
        rw (h.packed, count)
          (sym (le_bytes-snoc (w.bit_offset / 8) v ∙ rw (div-eq_of_lt small) refl)))
  | inr room ↦
      let count : (w.bit_offset + 7) / 8 ≡ suc (w.bit_offset / 8) = omega (
        arith,
        leb→gt (length w.buf) (w.bit_offset / 8) room,
        ap length h.packed,
        length-le_bytes ((w.bit_offset + 7) / 8) v,
      ) in
      rw room (h.packed ∙ ap (λ k. le_bytes k v) count)
]

module _ (v value bit : ℕ) (w : BitWriter) (h : Holds v w) where
  bytes_after : (w.bit_offset + 1 + 7) / 8 ≡ suc (w.bit_offset / 8)
  bytes_after = omega arith

  next_power : (x : ℕ) → x < 2 ^ w.bit_offset + 2 ^ w.bit_offset → x < 2 ^ (w.bit_offset + 1)
  next_power x k = rw (pow_add w.bit_offset 1) (omega (arith, k))

  zero_bit-Holds : value / 2 ^ bit % 2 ≡ 0 → Holds v (write_bit value bit w)
  unfolding write_bit
  zero_bit-Holds z = record {
    below = next_power v (omega (arith, h.below));
    packed = rw (bit_and_one (value / 2 ^ bit), z, bytes_after) (grown-eq v w h);
  }

  one_bit-Holds : value / 2 ^ bit % 2 ≡ 1 → Holds (v + 2 ^ w.bit_offset) (write_bit value bit w)
  unfolding write_bit
  one_bit-Holds z =
      let split : 8 * (w.bit_offset / 8) + w.bit_offset % 8 ≡ w.bit_offset = omega arith in
      record {
        below = next_power (v + 2 ^ w.bit_offset) (omega (arith, h.below));
        packed =
            rw
              (
                bit_and_one (value / 2 ^ bit),
                z,
                bytes_after,
                bit_and_mask 3 w.bit_offset,
                grown-eq v w h,
              )
              (set_bit (w.bit_offset / 8) (w.bit_offset % 8) v (omega arith) (rw split h.below)
                ∙ ap (λ o. le_bytes (suc (w.bit_offset / 8)) (v + 2 ^ o)) split);
      }

  write_bit-Holds : Holds (v + value / 2 ^ bit % 2 * 2 ^ w.bit_offset) (write_bit value bit w)
  write_bit-Holds = elim (Bool-cases (value / 2 ^ bit % 2 == 0)) [
    | inl e ↦
        let z = (==_iff (value / 2 ^ bit % 2) 0).0 e in
        subst (λ x. Holds x (write_bit value bit w)) (rw z (omega arith)) (zero_bit-Holds z)
    | inr e ↦
        let z : value / 2 ^ bit % 2 ≡ 1 = ground arith in
        subst (λ x. Holds x (write_bit value bit w)) (rw z (omega arith)) (one_bit-Holds z)
  ]

write_bit-offset :
    (value bit : ℕ) (w : BitWriter) → (write_bit value bit w).bit_offset ≡ w.bit_offset + 1
unfolding write_bit
write_bit-offset value bit w = refl

-- A field of n + 1 bits is its lowest bit and the field of n bits above.
field-suc :
    (n value bit off : ℕ)
    → value / 2 ^ bit % 2 * 2 ^ off + value / 2 ^ (bit + 1) % 2 ^ n * 2 ^ (off + 1)
      ≡ value / 2 ^ bit % 2 ^ suc n * 2 ^ off
field-suc n value bit off =
    let low = value / 2 ^ bit % 2 in
    let high = value / 2 ^ (bit + 1) % 2 ^ n in
    let field : value / 2 ^ bit % 2 ^ suc n ≡ low + high * 2 =
      ap (λ k. value / 2 ^ bit % 2 ^ k) (omega arith)
      ∙ mod-pow_add 1 n (value / 2 ^ bit)
      ∙ ap (λ q. low + q % 2 ^ n * 2) (sym (div-pow_add bit 1 value)) in
    rw (field, pow_add off 1)
      (omega (
        arith,
        add-mul low (high * 2) (2 ^ off),
        mul_assoc high 2 (2 ^ off),
        ap (λ x. high * x) (mul_comm 2 (2 ^ off)),
      ))

-- The loop of WriteBitsLSB puts a field of the value on top of what is held.
pub write_bits-Holds :
    (n v value bit : ℕ) (w : BitWriter)
    → Holds v w
    → Holds (v + value / 2 ^ bit % 2 ^ n * 2 ^ w.bit_offset) (write_bits n value bit w)
      × ((write_bits n value bit w).bit_offset ≡ w.bit_offset + n)
unfolding write_bits
write_bits-Holds zero v value bit w h =
    (subst (λ x. Holds x w) (rw (mod-one (value / 2 ^ bit)) (omega arith)) h, omega arith)
write_bits-Holds (suc n) v value bit w h =
    let (held, count) =
      write_bits-Holds n (v + value / 2 ^ bit % 2 * 2 ^ w.bit_offset) value (bit + 1)
        (write_bit value bit w) (write_bit-Holds v value bit w h) in
    let next : (write_bit value bit w).bit_offset ≡ w.bit_offset + 1 =
      write_bit-offset value bit w in
    (
      subst (λ x. Holds x (write_bits n value (bit + 1) (write_bit value bit w)))
          (ap
              (λ o.
                v + value / 2 ^ bit % 2 * 2 ^ w.bit_offset + value / 2 ^ (bit + 1) % 2 ^ n * 2 ^ o)
              next
            ∙ omega (arith, field-suc n value bit w.bit_offset))
          held,
      omega (arith, count, next),
    )
