-- ===== src/Core/BitPacking/Reading.antt =====
-- What BitReader reads: a field of the number that its bytes spell.
use go_draco.Common.Int.{pos}
use go_draco.Common.Bits.{bit_and_mask, bit_or_shifted}
use native.Mathlib.Nat.{
  pow-le-pow_right, div-div-eq-div-mul, mul-le-mul_right, pow-succ', mod-lt, suc-mul, mod-eq_of_lt,
  mod-one,
}
use native.Mathlib.Nat.{zero-div}
use go_draco.Core.Fields.{pow-bytes, div-pow_add, low_field, pow_positive, mod-pow_add}
use go_draco.Core.BitReader.{bits_at, read_bits_lsb, BitReader}
use go_draco.Core.BitReader.{load_bytes}
use go_draco.Core.Words.{little_endian, IsByte}
use go_draco.Common.{
  ℕ, zero, suc, ◌+◌, ◌-◌, ◌*◌, ◌/◌, ◌%◌, ◌^◌, ◌≤◌, ◌<◌, ◌≡◌, refl, sym, ap, ◌∙◌, inl, inr,
  Bool-cases, List, [], ◌∷◌, ◌++◌, none, some, length, All, get_or, get_or-append, arith, ltb, leb,
  ltb→lt, ltb→ge, ge→ltb, leb→le, bit_or, ne→==_false,
}

-- The bytes from index `i` on.
byte_at :
    (buf : List ℕ) (i : ℕ) → All IsByte buf → get_or buf i 0 ≡ little_endian buf / 256 ^ i % 256
unfolding little_endian
byte_at [] i h = rw (zero-div (256 ^ i)) refl
byte_at (b ∷ bs) zero (h, hs) = omega (arith, h)
byte_at (b ∷ bs) (suc i) (h, hs) =
    let rest : (b + 256 * little_endian bs) / 256 ≡ little_endian bs = omega (arith, h) in
    byte_at bs i hs
    ∙ ap (λ x. x / 256 ^ i % 256) (sym rest)
    ∙ ap (λ x. x % 256)
        (div-div-eq-div-mul (b + 256 * little_endian bs) 256 (256 ^ i)
          ∙ ap (λ p. (b + 256 * little_endian bs) / p) (sym (pow-succ' 256 i)))

byte_at_bit :
    (buf : List ℕ) (i : ℕ) → All IsByte buf → get_or buf i 0 ≡ little_endian buf / 2 ^ (8 * i) % 256
byte_at_bit buf i h = byte_at buf i h ∙ rw (pow-bytes i) refl

-- One round of the loop, with `t` bytes loaded.
round-eq :
    (buf : List ℕ) (i t : ℕ)
    → All IsByte buf
    → t ≤ 4
    → bit_or
        (little_endian buf / 2 ^ (8 * i) % 2 ^ (8 * t))
        (get_or buf (i + t) 0 * 2 ^ (8 * t) % 2 ^ 64)
      ≡ little_endian buf / 2 ^ (8 * i) % 2 ^ (8 * t + 8)
round-eq buf i t h few =
    let x = little_endian buf / 2 ^ (8 * i) in
    let byte : get_or buf (i + t) 0 ≡ x / 2 ^ (8 * t) % 2 ^ 8 =
      byte_at_bit buf (i + t) h
      ∙ ap (λ q. q % 256)
          (ap (λ k. little_endian buf / 2 ^ k) (omega arith)
            ∙ div-pow_add (8 * i) (8 * t) (little_endian buf)) in
    let fits : x / 2 ^ (8 * t) % 2 ^ 8 * 2 ^ (8 * t) < 2 ^ 64 =
      byte_fits (x / 2 ^ (8 * t)) (8 * t) (omega (arith, few)) in
    ap (λ b. bit_or (x % 2 ^ (8 * t)) (b * 2 ^ (8 * t) % 2 ^ 64)) byte
    ∙ ap (bit_or (x % 2 ^ (8 * t)))
        (mod-eq_of_lt {n = x / 2 ^ (8 * t) % 2 ^ 8 * 2 ^ (8 * t)} {m = 2 ^ 64} fits)
    ∙ bit_or_shifted (8 * t) (x % 2 ^ (8 * t)) (x / 2 ^ (8 * t) % 2 ^ 8)
        (mod-lt x (pow_positive (8 * t)))
    ∙ sym (mod-pow_add (8 * t) 8 x)
  where
    byte_fits : (y s : ℕ) → s ≤ 32 → y % 2 ^ 8 * 2 ^ s < 2 ^ 64
    byte_fits y s h = omega (
      arith,
      pow-le-pow_right {n = 2} (omega arith) {i = s} {j = 32} h,
      mul-le-mul_right (2 ^ s) (mod-lt y {m = 2 ^ 8} (omega arith)),
      suc-mul (y % 2 ^ 8) (2 ^ s),
      pow_positive s,
    )

-- The loop ends with the low bits of the number, as many as are needed or some more.
load_bytes-eq :
    (fuel : ℕ) (buf : List ℕ) (i t needed : ℕ)
    → All IsByte buf
    → needed ≤ 8 * (fuel + t)
    → fuel + t ≤ 5
    → (k : ℕ) × (load_bytes fuel buf
          (i + t)
          (8 * t)
          needed
          (little_endian buf / 2 ^ (8 * i) % 2 ^ (8 * t))
        ≡ little_endian buf / 2 ^ (8 * i) % 2 ^ (needed + k))
unfolding load_bytes
load_bytes-eq zero buf i t needed h enough few =
    (8 * t - needed, ap (λ k. little_endian buf / 2 ^ (8 * i) % 2 ^ k) (omega (arith, enough)))
load_bytes-eq (suc fuel) buf i t needed h enough few = elim (Bool-cases (ltb (8 * t) needed)) [
  | inr done ↦ rw done (
    8 * t - needed,
    ap (λ k. little_endian buf / 2 ^ (8 * i) % 2 ^ k) (omega (arith, ltb→ge _ _ done)),
  )
  | inl more ↦
      rw (more, round-eq buf i t h (omega (arith, few)), further i t, eight t)
        (load_bytes-eq fuel buf i (suc t) needed h (omega (arith, enough)) (omega (arith, few)))
]
  where
    further : (i t : ℕ) → i + t + 1 ≡ i + suc t
    further i t = omega arith

    eight : (t : ℕ) → 8 * t + 8 ≡ 8 * suc t
    eight t = omega arith

-- The value of a read is a field of the number.
pub bits_at-eq :
    (buf : List ℕ) (offset n : ℕ)
    → All IsByte buf
    → n ≤ 32
    → bits_at buf offset n ≡ little_endian buf / 2 ^ offset % 2 ^ n
unfolding bits_at
bits_at-eq buf offset n h few =
    let i = offset / 8 in
    let s = offset % 8 in
    let x = little_endian buf / 2 ^ (8 * i) in
    let whole : x / 2 ^ s % 2 ^ n ≡ little_endian buf / 2 ^ offset % 2 ^ n =
      ap (λ q. q % 2 ^ n)
        (sym (div-pow_add (8 * i) s (little_endian buf))
          ∙ ap (λ k. little_endian buf / 2 ^ k) (omega arith)) in
    elim (Bool-cases (leb (s + n) 8)) [
      | inl one_byte ↦
          rw (bit_and_mask 3 offset, one_byte)
            (bit_and_mask n (get_or buf i 0 / 2 ^ s)
              ∙ ap (λ b. b / 2 ^ s % 2 ^ n) (byte_at_bit buf i h)
              ∙ low_field s n 8 x (leb→le _ _ one_byte)
              ∙ whole)
      | inr more ↦
          let (k, loaded) = load_bytes-eq 5 buf i 0 (n + s) h (omega (arith, few)) (omega arith) in
          let start : load_bytes 5 buf i 0 (n + s) 0 ≡ x % 2 ^ (n + s + k) =
            ap (λ b. load_bytes 5 buf i 0 (n + s) b) (sym (mod-one x))
            ∙ ap (λ j. load_bytes 5 buf j 0 (n + s) (x % 1)) (omega arith)
            ∙ loaded in
          let word : x / 2 ^ s % 2 ^ n < 2 ^ 32 = omega (
            arith,
            mod-lt (x / 2 ^ s) (pow_positive n),
            pow-le-pow_right {n = 2} (omega arith) {i = n} {j = 32} few,
          ) in
          rw (bit_and_mask 3 offset, more, start)
            (ap (λ b. b % 2 ^ 32)
                (bit_and_mask n (x % 2 ^ (n + s + k) / 2 ^ s)
                  ∙ low_field s n (n + s + k) x (omega arith))
              ∙ mod-eq_of_lt {n = x / 2 ^ s % 2 ^ n} {m = 2 ^ 32} word
              ∙ whole)
    ]

-- With n ≤ 32 bits left, ReadBitsLSB returns the field of n bits at its offset, of the number that
-- the bytes spell lowest first, and moves past it.
pub read_bits_lsb-field :
    (r : BitReader) (n : ℕ)
    → All IsByte r.buf
    → n ≤ 32
    → r.bit_offset + n ≤ 8 * length r.buf
    → read_bits_lsb (pos n) r ≡ (
      some (little_endian r.buf / 2 ^ r.bit_offset % 2 ^ n),
      record r { bit_offset = r.bit_offset + n },
    )
unfolding read_bits_lsb
read_bits_lsb-field r zero h few inside = λ i. (
  some (sym (mod-one (little_endian r.buf / 2 ^ r.bit_offset)) i),
  record r { bit_offset = same i },
)
  where
    same : r.bit_offset ≡ r.bit_offset + 0
    same = omega arith
read_bits_lsb-field r (suc n) h few inside =
    rw
      (
        ge→ltb 32 (suc n) few,
        ne→==_false (suc n) 0 (λ e. absurd (omega (arith, e))),
        ge→ltb (length r.buf * 8) r.bit_offset (omega (arith, inside)),
        ge→ltb (length r.buf * 8 - r.bit_offset) (suc n) (omega (arith, inside)),
        bits_at-eq r.buf r.bit_offset (suc n) h few,
      )
      refl

-- With fewer than n > 0 bits left, ReadBitsLSB fails and stays where it is.
read_bits_lsb-short :
    (r : BitReader) (n : ℕ)
    → 8 * length r.buf < r.bit_offset + suc n
    → read_bits_lsb (pos (suc n)) r ≡ (none, r)
unfolding read_bits_lsb
read_bits_lsb-short r n short = ground (arith, short)

-- What lies past the bits that are read does not matter.
load_bytes-append :
    (fuel : ℕ) (xs rest : List ℕ) (i loaded needed bits : ℕ)
    → 8 * i + needed ≤ 8 * length xs + loaded
    → load_bytes fuel (xs ++ rest) i loaded needed bits ≡ load_bytes fuel xs i loaded needed bits
unfolding load_bytes
load_bytes-append zero xs rest i loaded needed bits h = refl
load_bytes-append (suc fuel) xs rest i loaded needed bits h =
    elim (Bool-cases (ltb loaded needed)) [
      | inr done ↦ rw done refl
      | inl more ↦
          rw (more, get_or-append xs rest i 0 (omega (arith, h, ltb→lt loaded needed more)))
            (load_bytes-append fuel xs rest (i + 1) (loaded + 8) needed _ (omega (arith, h)))
    ]

pub bits_at-append :
    (xs rest : List ℕ) (offset n : ℕ)
    → offset + suc n ≤ 8 * length xs
    → bits_at (xs ++ rest) offset (suc n) ≡ bits_at xs offset (suc n)
unfolding bits_at
bits_at-append xs rest offset n h =
    rw
      (
        bit_and_mask 3 offset,
        get_or-append xs rest (offset / 8) 0 (omega (arith, h)),
        load_bytes-append 5 xs rest (offset / 8) 0 (suc n + offset % 8) 0 (omega (arith, h)),
      )
      refl
