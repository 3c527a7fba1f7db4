-- ===== src/Core/Varint/Laws.antt =====
-- The theorems on the varints, and the groups of bits that are written.
use go_draco.Common.{
  ℕ, zero, suc, ◌+◌, ◌*◌, ◌/◌, ◌%◌, ◌^◌, ◌<◌, ◌≡◌, refl, ap, List, [], ◌∷◌, bit_and, bit_or, ◌==◌,
  if◌then◌else◌, Error, Bool-cases, inl, inr, arith, true, false, ok,
}
use mathlib.Core.Path.{subst}
use native.Mathlib.Nat.{add_assoc, mod-eq_of_lt, div-add-mod, mul_comm}
use go_draco.Common.Bits.{
  bit_and_mask, bit_or_top, bit_and_top, bit_or_shifted, pow-add_seven, bit_and_one, bit_or_one,
}
use go_draco.Common.Int.{ℤ, pos, negsuc, IsInt32}
use go_draco.Core.Codec.{Writes, Reads, RoundTrip, Reads-bind, Reads-map, Writes-then, Writes-nil}
use go_draco.Core.Reader.{read_uint8}
use go_draco.Core.Reader.Laws.{read_uint8-Reads}
use go_draco.Core.Writer.Laws.{write_uint8-Writes}
use go_draco.Core.Varint.{
  encode_var_loop, encode_var_uint32, encode_var_uint64, decode_var_loop, decode_var_uint32,
  decode_var_uint64, convert_signed_int32_to_symbol, convert_symbol_to_signed_int32,
  encode_var_int32, decode_var_int32,
}

-- The groups of `v`, for `v` below 128 ^ (k + 1).
unfoldable pub groups : ℕ → ℕ → List ℕ
groups zero v = (v % 128) ∷ []
groups (suc k) v =
    let rest = groups k (v / 128) in if v / 128 == 0 then (v % 128) ∷ [] else (v % 128 + 128) ∷ rest

low_group : (v : ℕ) → bit_and v 0x7f % 256 ≡ v % 128
low_group v = rw (bit_and_mask 7 v) (omega arith)

-- One round of each loop, on a byte that ends the number and on one that does not.
encode_last :
    (k v : ℕ) → (v / 128 == 0) ≡ true → Writes ((v % 128) ∷ []) (encode_var_loop (suc k) v)
unfolding encode_var_loop
encode_last k v e w =
    rw (e, low_group v)
      (Writes-then ((v % 128) ∷ []) [] (write_uint8-Writes (v % 128)) Writes-nil w)

encode_more :
    (k v : ℕ) (bs : List ℕ)
    → (v / 128 == 0) ≡ false
    → Writes bs (encode_var_loop k (v / 128))
    → Writes ((v % 128 + 128) ∷ bs) (encode_var_loop (suc k) v)
unfolding encode_var_loop
encode_more k v bs e h w =
    rw (e, low_group v, bit_or_top (v % 128) (omega arith))
      (Writes-then ((v % 128 + 128) ∷ []) bs (write_uint8-Writes (v % 128 + 128)) h w)

encode_var_loop-Writes :
    (k v : ℕ) → v < 128 ^ suc k → Writes (groups k v) (encode_var_loop (suc k) v)
unfolding groups
encode_var_loop-Writes zero v h = encode_last 0 v (ground arith)
encode_var_loop-Writes (suc k) v h = elim (Bool-cases (v / 128 == 0)) [
  | inl e ↦ rw e (encode_last (suc k) v e)
  | inr e ↦ rw e (
      encode_more (suc k) v (groups k (v / 128)) e
        (encode_var_loop-Writes k (v / 128) (omega arith)))
]

module _ (n width : ℕ) (e : Error) (value shift : ℕ) (fits : value < 2 ^ shift) where
  next_value :
      (b : ℕ)
      → value + b % 128 * 2 ^ shift < 2 ^ width
      → bit_or value (bit_and b 0x7f * 2 ^ shift % 2 ^ width) ≡ value + b % 128 * 2 ^ shift
  next_value b total =
      rw (bit_and_mask 7 b, mod-eq_of_lt {n = b % 128 * 2 ^ shift} {m = 2 ^ width} (omega arith))
        (bit_or_shifted shift value (b % 128) fits)

  decode_last :
      (b : ℕ)
      → b < 128
      → value + b * 2 ^ shift < 2 ^ width
      → Reads (b ∷ []) (decode_var_loop (suc n) width e value shift) (value + b * 2 ^ shift)
  unfolding decode_var_loop
  decode_last b h total =
      Reads-map (b ∷ []) read_uint8 _ b (value + b * 2 ^ shift) (read_uint8-Reads b) (
        let low : b % 128 ≡ b = omega arith in
        let flag : (bit_and b 0x80 == 0) ≡ true = ground (arith, bit_and_top b) in
        rw (flag, next_value b (rw low total), low) (λ s. refl))

  decode_more :
      (g a : ℕ) (bs : List ℕ)
      → g < 128
      → value + g * 2 ^ shift < 2 ^ width
      → Reads bs (decode_var_loop n width e (value + g * 2 ^ shift) (shift + 7)) a
      → Reads ((g + 128) ∷ bs) (decode_var_loop (suc n) width e value shift) a
  unfolding decode_var_loop
  decode_more g a bs h total r =
      Reads-bind ((g + 128) ∷ []) bs read_uint8 _ (g + 128) a (read_uint8-Reads (g + 128)) (
        let low : (g + 128) % 128 ≡ g = omega arith in
        let flag : (bit_and (g + 128) 0x80 == 0) ≡ false = ground (arith, bit_and_top (g + 128)) in
        rw (flag, next_value (g + 128) (rw low total), low) r)

split_group : (v s : ℕ) → v * 2 ^ s ≡ v % 128 * 2 ^ s + v / 128 * 2 ^ (s + 7)
split_group v s = omega (
  arith,
  ap (λ (t : ℕ). t * 2 ^ s) (div-add-mod v 128),
  ap (λ (t : ℕ). v / 128 * t) (pow-add_seven s),
)

group_fits : (value v s : ℕ) → value < 2 ^ s → value + v % 128 * 2 ^ s < 2 ^ (s + 7)
group_fits value v s h = rw pow-add_seven (grind arith)

-- `v` is what is still to be read, and it counts from bit `shift` on.
decode_var_loop-Reads :
    (k width : ℕ) (e : Error) (v value shift : ℕ)
    → v < 128 ^ suc k
    → value < 2 ^ shift
    → value + v * 2 ^ shift < 2 ^ width
    → Reads (groups k v) (decode_var_loop (suc k) width e value shift) (value + v * 2 ^ shift)
unfolding groups
decode_var_loop-Reads zero width e v value shift h fits total =
    rw (mod-eq_of_lt h) (decode_last 0 width e value shift fits v h total)
decode_var_loop-Reads (suc k) width e v value shift h fits total =
    elim (Bool-cases (v / 128 == 0)) [
      | inl done ↦
          let low : v % 128 ≡ v = ground arith in
          rw (done, low) (decode_last (suc k) width e value shift fits v (ground arith) total)
      | inr more ↦
          rw (more, split_group v shift)
            (decode_more (suc k) width e value shift fits (v % 128) _ (groups k (v / 128))
              (omega arith) (omega (arith, split_group v shift))
              (rw (← add_assoc value (v % 128 * 2 ^ shift) (v / 128 * 2 ^ (shift + 7))) (
                decode_var_loop-Reads k width e (v / 128) (value + v % 128 * 2 ^ shift) (shift + 7)
                  (omega arith) (group_fits value v shift fits)
                  (omega (arith, split_group v shift)))))
    ]

plain : (v : ℕ) → 0 + v * 2 ^ 0 ≡ v
plain v = omega arith

-- EncodeVarUint32 succeeds on every uint32, and DecodeVarUint32 reads it back from exactly the
-- bytes that were written, whatever follows them.
pub decode-encode_var_uint32 :
    (v : ℕ) → v < 2 ^ 32 → RoundTrip (encode_var_uint32 v) decode_var_uint32 v
unfolding encode_var_uint32 decode_var_uint32
decode-encode_var_uint32 v h = (
  groups 4 v,
  encode_var_loop-Writes 4 v (omega arith),
  subst (Reads (groups 4 v) _) (plain v)
      (decode_var_loop-Reads 4 32 _ v 0 0 (omega arith) (omega arith) (omega arith)),
)

-- EncodeVarUint64 succeeds on every uint64, and DecodeVarUint64 reads it back from exactly the
-- bytes that were written, whatever follows them.
pub decode-encode_var_uint64 :
    (v : ℕ) → v < 2 ^ 64 → RoundTrip (encode_var_uint64 v) decode_var_uint64 v
unfolding encode_var_uint64 decode_var_uint64
decode-encode_var_uint64 v h = (
  groups 9 v,
  encode_var_loop-Writes 9 v (omega arith),
  subst (Reads (groups 9 v) _) (plain v)
      (decode_var_loop-Reads 9 64 _ v 0 0 (omega arith) (omega arith) (omega arith)),
)

symbol-lt : (v : ℤ) → IsInt32 v → convert_signed_int32_to_symbol v < 2 ^ 32
unfolding convert_signed_int32_to_symbol
symbol-lt (pos n) h = omega arith
symbol-lt (negsuc n) h =
    rw (mod-eq_of_lt {n = n * 2} {m = 2 ^ 32} (omega arith), mul_comm n 2, bit_or_one n)
      (omega arith)

-- The zigzag symbol of an int32 converts back.
symbol-signed :
    (v : ℤ) → IsInt32 v → convert_symbol_to_signed_int32 (convert_signed_int32_to_symbol v) ≡ v
unfolding convert_signed_int32_to_symbol convert_symbol_to_signed_int32
symbol-signed (pos n) h = ground (arith, bit_and_one (n * 2 % 2 ^ 32))
symbol-signed (negsuc n) h =
    rw (mod-eq_of_lt {n = n * 2} {m = 2 ^ 32} (omega arith), mul_comm n 2, bit_or_one n)
      (ground (arith, bit_and_one (2 * n + 1)))

-- EncodeVarInt32 succeeds on every int32, negative ones included, and DecodeVarInt32 reads it
-- back from exactly the bytes that were written, whatever follows them.
pub decode-encode_var_int32 :
    (v : ℤ) → IsInt32 v → RoundTrip (encode_var_int32 v) decode_var_int32 v
unfolding encode_var_int32 decode_var_int32
decode-encode_var_int32 v h =
    let s = convert_signed_int32_to_symbol v in
    let (bs, w, r) = decode-encode_var_uint32 s (symbol-lt v h) in
    (bs, w, Reads-map bs decode_var_uint32 _ s v r (λ t i. (ok (symbol-signed v h i), t)))
