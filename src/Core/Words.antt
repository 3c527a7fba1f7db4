-- ===== src/Core/Words.antt =====
-- Little-endian words, as encoding/binary reads and writes them.
use native.Mathlib.Nat.{pow-succ', mul_assoc}
use go_draco.Common.{
  ℕ, zero, suc, ◌+◌, ◌*◌, ◌/◌, ◌%◌, ◌^◌, ◌<◌, ◌≡◌, List, [], ◌∷◌, ◌++◌, length, All, arith,
}

-- The number that the bytes spell, lowest byte first.
unfoldable pub little_endian : List ℕ → ℕ
little_endian [] = 0
little_endian (b ∷ bs) = b + 256 * little_endian bs

-- The lowest `n` bytes of `v`.
unfoldable pub le_bytes : ℕ → ℕ → List ℕ
le_bytes zero v = []
le_bytes (suc n) v = (v % 256) ∷ le_bytes n (v / 256)

abbrev pub IsByte : ℕ → Type 0
IsByte b = b < 256

pub length-le_bytes : (n v : ℕ) → length (le_bytes n v) ≡ n
unfolding le_bytes
length-le_bytes zero v = omega arith
length-le_bytes (suc n) v = omega (arith, length-le_bytes n (v / 256))

pub le_bytes-IsByte : (n v : ℕ) → All IsByte (le_bytes n v)
unfolding le_bytes
le_bytes-IsByte zero v = tt
le_bytes-IsByte (suc n) v = (omega arith, le_bytes-IsByte n (v / 256))

pub little_endian-le_bytes : (n v : ℕ) → v < 256 ^ n → little_endian (le_bytes n v) ≡ v
unfolding little_endian le_bytes
little_endian-le_bytes zero v h = omega arith
little_endian-le_bytes (suc n) v h = omega (arith, little_endian-le_bytes n (v / 256) (omega arith))

pub little_endian-append :
    (xs ys : List ℕ)
    → little_endian (xs ++ ys) ≡ little_endian xs + 256 ^ length xs * little_endian ys
unfolding little_endian
little_endian-append [] ys = omega arith
little_endian-append (x ∷ xs) ys =
    rw (pow-succ' 256 (length xs), mul_assoc 256 (256 ^ length xs) (little_endian ys))
      (omega (arith, little_endian-append xs ys))
