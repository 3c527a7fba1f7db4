-- ===== src/Transform/Normal.antt =====
-- internal/transform/normal.go: corrections of normals on the octahedron. A slice of two numbers is a
-- pair; both structs hold an Octahedron only.
pub mod Rotation
pub mod Laws
pub mod Canonical
mod Tests
use go_draco.Core.Writer.{Writer, write_int32}
use go_draco.Core.Reader.{Reader, read_int32}
use go_draco.Common.Int.{ℤ, to_int32, pos, to_uint32, ltb_ℤ}
use go_draco.Transform.Octahedron.{
  Octahedron, is_zero, neg32, sub32, invert_diamond, is_in_diamond, make_positive, mod_max,
  set_max_quantized_value, add32,
}
use go_draco.Common.{
  ℕ, zero, suc, ◌+◌, ◌-◌, ◌*◌, ◌/◌, ◌%◌, ◌^◌, ◌≤◌, ◌<◌, ◌≡◌, ◌≢◌, ◌↔◌, ◌⊎◌, refl, sym, ap, ◌∙◌, inl,
  inr, Bool, true, false, not, ◌&&◌, ◌||◌, Bool-cases, Option-cases, List, [], ◌∷◌, ◌++◌,
  append-nil, append_assoc, Option, none, some, length, All, get_or, set, take, drop, replicate,
  length-append, length-set, length-drop, take-append, drop-append, get_or-drop, drop-drop,
  get_or-append, get_or-append_end, arith, ltb, leb, ◌==◌, if◌then◌else◌, ltb→lt, ltb→ge, lt→ltb,
  ge→ltb, leb→le, le→leb, lt→leb_false, ==_iff, bit_and, bit_or, M, Error, Result, ok, err, ◌>>=◌,
  ◌>>◌, pure, fail, bind_ok, bind_err, on_left, on_right, slices_equal, slices_equal→eq,
  get_or-append_at, leb→gt, none≢some, some_inv, length-take, length-replicate, ne→==_false, eq→==,
  bind-inv, All-append, invalid_octahedron_bits,
}

-- The methods Decode of both structs; the second reads a center value that it does not use.
unfoldable decode_normal : M (Reader × Octahedron) (Unit {0})
decode_normal = do m ← on_left read_int32; on_right (set_max_quantized_value m)

unfoldable check_bits : M Octahedron (Unit {0})
check_bits t =
    if ltb t.quantization_bits 2 || ltb 30 t.quantization_bits
    then (err invalid_octahedron_bits, t)
    else (ok tt, t)

unfoldable decode_canonicalized : M (Reader × Octahedron) (Unit {0})
decode_canonicalized = do
  m ← on_left read_int32
  center ← on_left read_int32
  on_right (set_max_quantized_value m)
  on_right check_bits

unfoldable encode_canonicalized : Octahedron → M Writer (Unit {0})
encode_canonicalized t = do
  write_int32 (pos t.max_quantized_value)
  write_int32 (pos t.center_value)

unfoldable pub add_as_unsigned : ℤ → ℤ → ℤ
add_as_unsigned a b = to_int32 ((to_uint32 a + to_uint32 b) % 2 ^ 32)

unfoldable pub is_in_bottom_left : ℤ → ℤ → Bool
is_in_bottom_left x y =
    if is_zero x && is_zero y then true else ltb_ℤ x (pos 0) && not (ltb_ℤ (pos 0) y)

unfoldable pub rotation_count : ℤ → ℤ → ℕ
rotation_count x y =
    if is_zero x
    then if is_zero y then 0 else if ltb_ℤ (pos 0) y then 3 else 1
    else if ltb_ℤ (pos 0) x
    then if ltb_ℤ y (pos 0) then 1 else 2
    else if ltb_ℤ (pos 0) y
    then 3
    else 0

unfoldable pub rotate : ℕ → ℤ × ℤ → ℤ × ℤ
rotate zero (x, y) = (x, y)
rotate (suc zero) (x, y) = (y, neg32 x)
rotate (suc (suc zero)) (x, y) = (neg32 x, neg32 y)
rotate (suc (suc (suc zero))) (x, y) = (neg32 y, x)
rotate (suc (suc (suc (suc n)))) (x, y) = (x, y)

module _ (t : Octahedron) where
  abbrev pub center_value : ℤ
  center_value = pos t.center_value

  abbrev pub centered : ℤ × ℤ → ℤ × ℤ
  centered (x, y) = (sub32 x center_value, sub32 y center_value)

  -- InvertDiamond of a point, where the prediction is outside the diamond.
  abbrev pub invert_if : Bool → ℤ × ℤ → ℤ × ℤ
  invert_if in_diamond (x, y) = if in_diamond then (x, y) else invert_diamond t x y

  -- The prediction of both methods, and the turns that bring it to the bottom left.
  abbrev pub turns : ℤ × ℤ → ℕ
  turns (x, y) = if is_in_bottom_left x y then 0 else rotation_count x y

  unfoldable pub compute_correction : ℤ × ℤ → ℤ × ℤ → ℤ × ℤ
  compute_correction orig pred =
      let p = centered pred in
      let inside = is_in_diamond t p.0 p.1 in
      let o' = invert_if inside (centered orig) in
      let p' = invert_if inside p in
      let n = turns p' in
      let o'' = rotate n o' in
      let p'' = rotate n p' in
      (make_positive t (sub32 o''.0 p''.0), make_positive t (sub32 o''.1 p''.1))

  unfoldable pub compute_original_value : ℤ × ℤ → ℤ × ℤ → ℤ × ℤ
  compute_original_value pred corr =
      let p = centered pred in
      let inside = is_in_diamond t p.0 p.1 in
      let p' = invert_if inside p in
      let n = turns p' in
      let p'' = rotate n p' in
      let o : ℤ × ℤ =
        (mod_max t (add_as_unsigned p''.0 corr.0), mod_max t (add_as_unsigned p''.1 corr.1)) in
      let o' = invert_if inside (rotate ((4 - n) % 4) o) in
      (add32 o'.0 center_value, add32 o'.1 center_value)

  -- The same of NormalOctahedron, without turns.
  unfoldable compute_original_value_plain : ℤ × ℤ → ℤ × ℤ → ℤ × ℤ
  compute_original_value_plain pred corr =
      let p = centered pred in
      let inside = is_in_diamond t p.0 p.1 in
      let p' = invert_if inside p in
      let o : ℤ × ℤ =
        (mod_max t (add_as_unsigned p'.0 corr.0), mod_max t (add_as_unsigned p'.1 corr.1)) in
      let o' = invert_if inside o in (add32 o'.0 center_value, add32 o'.1 center_value)
