-- ===== src/Transform/Octahedron.antt =====
-- internal/transform/octahedron.go: `Octahedron`, points of the octahedron unfolded to a square, in
-- int32 arithmetic. The scale of type float32 and the methods on float vectors are left out.
pub mod Patterns
pub mod Inversion
pub mod Twice
use go_draco.Core.Reader.{Reader, read_uint8}
use go_draco.Core.Writer.{Writer, write_uint8}
use go_draco.Common.Int.{ℤ, pos, wrap32, ltb_ℤ, to_uint32, negsuc, to_int32, ◌-ℤ◌, ◌+ℤ◌}
use go_draco.Common.{
  ℕ, zero, suc, ◌+◌, ◌-◌, ◌*◌, ◌/◌, ◌%◌, ◌^◌, ◌≤◌, ◌<◌, ◌≡◌, ◌≢◌, ◌↔◌, ◌⊎◌, refl, sym, ap, ◌∙◌, inl,
  inr, Bool, true, false, not, ◌&&◌, ◌||◌, Bool-cases, Option-cases, List, [], ◌∷◌, ◌++◌,
  append-nil, append_assoc, Option, none, some, length, All, get_or, set, take, drop, replicate,
  length-append, length-set, length-drop, take-append, drop-append, get_or-drop, drop-drop,
  get_or-append, get_or-append_end, arith, ltb, leb, ◌==◌, if◌then◌else◌, ltb→lt, ltb→ge, lt→ltb,
  ge→ltb, leb→le, le→leb, lt→leb_false, ==_iff, bit_and, bit_or, M, Error, Result, ok, err, ◌>>=◌,
  ◌>>◌, pure, fail, bind_ok, bind_err, on_left, on_right, slices_equal, slices_equal→eq,
  get_or-append_at, leb→gt, none≢some, some_inv, length-take, length-replicate, ne→==_false, eq→==,
  bind-inv, All-append, invalid_octahedron_bits, invalid_max_quantized_value,
}

pub record Octahedron : Type 0 where
  pub quantization_bits : ℕ
  pub max_quantized_value : ℕ
  pub max_value : ℕ
  pub center_value : ℕ

-- `var t Octahedron`
abbrev pub zero_octahedron : Octahedron
zero_octahedron = record {
  quantization_bits = 0;
  max_quantized_value = 0;
  max_value = 0;
  center_value = 0;
}

-- -n
abbrev pub neg : ℕ → ℤ
neg zero = pos 0
neg (suc n) = negsuc n

-- The operations of int32.
abbrev pub neg32 : ℤ → ℤ
neg32 a = wrap32 (pos 0 -ℤ a)

abbrev pub add32 : ℤ → ℤ → ℤ
add32 a b = wrap32 (a +ℤ b)

abbrev pub sub32 : ℤ → ℤ → ℤ
sub32 a b = wrap32 (a -ℤ b)

-- Division by 2, towards zero.
abbrev pub half : ℤ → ℤ
half (pos n) = pos (n / 2)
half (negsuc n) = neg (suc n / 2)

abbrev pub is_zero : ℤ → Bool
is_zero (pos zero) = true
is_zero (pos (suc n)) = false
is_zero (negsuc n) = false

abbrev eq_ℤ : ℤ → ℤ → Bool
eq_ℤ (pos m) (pos n) = m == n
eq_ℤ (pos m) (negsuc n) = false
eq_ℤ (negsuc m) (pos n) = false
eq_ℤ (negsuc m) (negsuc n) = m == n

abbrev abs_int32 : ℤ → ℤ
abs_int32 (pos n) = pos n
abs_int32 (negsuc n) = neg32 (negsuc n)

unfoldable pub set_quantization_bits : ℤ → M Octahedron (Unit {0})
set_quantization_bits (negsuc q) t = (err invalid_octahedron_bits, t)
set_quantization_bits (pos q) t =
    let t' : Octahedron = record {
      quantization_bits = q;
      max_quantized_value = 2 ^ q - 1;
      max_value = 2 ^ q - 1 - 1;
      center_value = (2 ^ q - 1 - 1) / 2;
    } in
    if ltb q 2 || ltb 30 q then (err invalid_octahedron_bits, t) else (ok tt, t')

-- bits.Len32
unfoldable pub len_bits : ℕ → ℕ → ℕ
len_bits zero v = 0
len_bits (suc fuel) v = let rest = suc (len_bits fuel (v / 2)) in if v == 0 then 0 else rest

unfoldable pub set_max_quantized_value : ℤ → M Octahedron (Unit {0})
set_max_quantized_value (negsuc m) t = (err invalid_max_quantized_value, t)
set_max_quantized_value (pos m) t =
    if m == 0 || m % 2 == 0
    then (err invalid_max_quantized_value, t)
    else set_quantization_bits (pos (len_bits 32 m)) t

unfoldable pub encode : Octahedron → M Writer (Unit {0})
encode t = write_uint8 (t.quantization_bits % 256)

unfoldable pub decode : M (Reader × Octahedron) (Unit {0})
decode = do q ← on_left read_uint8; on_right (set_quantization_bits (pos q))

abbrev pub sub_uint32 : ℕ → ℕ → ℕ
sub_uint32 a b = (a % 2 ^ 32 + (2 ^ 32 - b % 2 ^ 32)) % 2 ^ 32

-- The switch on the signs: true for 1 and false for -1.
abbrev pub signs : ℤ → ℤ → Bool × Bool
signs s v =
    if not (ltb_ℤ s (pos 0)) && not (ltb_ℤ v (pos 0))
    then (true, true)
    else if not (ltb_ℤ (pos 0) s) && not (ltb_ℤ (pos 0) v)
    then (false, false)
    else (ltb_ℤ (pos 0) s, ltb_ℤ (pos 0) v)

module _ (t : Octahedron) where
  abbrev max : ℤ
  max = pos t.max_value

  abbrev center : ℤ
  center = pos t.center_value

  unfoldable pub canonicalize_octahedral_coords : ℤ → ℤ → ℤ × ℤ
  canonicalize_octahedral_coords s v =
      if is_zero s && is_zero v || is_zero s && eq_ℤ v max || eq_ℤ s max && is_zero v
      then (max, max)
      else if is_zero s && ltb_ℤ center v
      then (s, sub32 center (sub32 v center))
      else if eq_ℤ s max && ltb_ℤ v center
      then (s, add32 center (sub32 center v))
      else if eq_ℤ v max && ltb_ℤ s center
      then (add32 center (sub32 center s), v)
      else if is_zero v && ltb_ℤ center s
      then (sub32 center (sub32 s center), v)
      else (s, v)

  unfoldable pub is_in_diamond : ℤ → ℤ → Bool
  is_in_diamond s v = not (ltb_ℤ center (add32 (abs_int32 s) (abs_int32 v)))

  unfoldable pub mod_max : ℤ → ℤ
  mod_max x =
      if ltb_ℤ center x
      then sub32 x (pos t.max_quantized_value)
      else if ltb_ℤ x (neg32 center)
      then add32 x (pos t.max_quantized_value)
      else x

  unfoldable pub make_positive : ℤ → ℤ
  make_positive x = if ltb_ℤ x (pos 0) then add32 x (pos t.max_quantized_value) else x

  -- uint32(sign * t.centerValue)
  abbrev pub corner_point : Bool → ℕ
  corner_point sign = to_uint32 (if sign then center else neg32 center)

  -- InvertDiamond from the signs on.
  unfoldable pub invert_from : Bool → Bool → ℤ → ℤ → ℤ × ℤ
  invert_from sign_s sign_v s v =
      let corner_s = corner_point sign_s in
      let corner_v = corner_point sign_v in
      let us = sub_uint32 (to_uint32 s + to_uint32 s) corner_s in
      let uv = sub_uint32 (to_uint32 v + to_uint32 v) corner_v in
      let same = if sign_s then sign_v else not sign_v in
      let us' = if same then to_uint32 (neg32 (to_int32 uv)) else uv in
      let uv' = if same then to_uint32 (neg32 (to_int32 us)) else us in
      (half (to_int32 ((us' + corner_s) % 2 ^ 32)), half (to_int32 ((uv' + corner_v) % 2 ^ 32)))

  unfoldable pub invert_diamond : ℤ → ℤ → ℤ × ℤ
  unfolding invert_from
  invert_diamond s v = let (sign_s, sign_v) = signs s v in invert_from sign_s sign_v s v

  unfoldable invert_direction : ℤ → ℤ → ℤ × ℤ
  invert_direction s v = invert_diamond (neg32 s) (neg32 v)

  -- The branch on the sign of the first component.
  unfoldable integer_vector_to_quantized_octahedral_coords : ℤ → ℤ → ℤ → ℤ × ℤ
  integer_vector_to_quantized_octahedral_coords x y z =
      let s =
        if ltb_ℤ x (pos 0)
        then if ltb_ℤ y (pos 0) then abs_int32 z else sub32 max (abs_int32 z)
        else add32 y center in
      let v =
        if ltb_ℤ x (pos 0)
        then if ltb_ℤ z (pos 0) then abs_int32 y else sub32 max (abs_int32 y)
        else add32 z center in
      canonicalize_octahedral_coords s v
