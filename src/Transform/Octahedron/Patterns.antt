-- ===== src/Transform/Octahedron/Patterns.antt =====
-- Sums and differences of int32 numbers, by their patterns.
use go_draco.Common.{ℕ, ◌+◌, ◌%◌, ◌^◌, ◌≤◌, ◌<◌, ◌≡◌, arith}
use go_draco.Common.Int.{
  ℤ, pos, negsuc, to_uint32, ◌+ℤ◌, ◌-ℤ◌, pos_part, neg_part, IsInt32, to_int32, +ℤ_parts, -ℤ_parts,
  wrap32, wrap32_id, eq_of_parts,
}
use go_draco.Transform.Octahedron.{sub_uint32, half, neg32}

pub pattern-add : (a b : ℤ) → (to_uint32 a + to_uint32 b) % 2 ^ 32 ≡ to_uint32 (a +ℤ b)
unfolding ◌+ℤ◌
pattern-add (pos a) (pos b) = ground arith
pattern-add (pos a) (negsuc b) = ground arith
pattern-add (negsuc a) (pos b) = ground arith
pattern-add (negsuc a) (negsuc b) = ground arith

pattern-sub :
    (w : ℕ) (a b : ℤ) → w % 2 ^ 32 ≡ to_uint32 a → sub_uint32 w (to_uint32 b) ≡ to_uint32 (a -ℤ b)
unfolding ◌-ℤ◌
pattern-sub w (pos a) (pos b) h = ground arith
pattern-sub w (pos a) (negsuc b) h = ground arith
pattern-sub w (negsuc a) (pos b) h = ground arith
pattern-sub w (negsuc a) (negsuc b) h = ground arith

half-double : (a : ℤ) → half (a +ℤ a) ≡ a
unfolding ◌+ℤ◌
half-double (pos a) = ground arith
half-double (negsuc a) = ground arith

-- Between -c and c.
abbrev pub Within : ℕ → ℤ → Type 0
Within c z = (pos_part z ≤ c) × (neg_part z ≤ c)

IsInt32-Within : (c : ℕ) (z : ℤ) → c < 2 ^ 31 → Within c z → IsInt32 z
IsInt32-Within c z h (p, n) = (omega (arith, h, n), omega (arith, h, p, n))

module _ (c : ℕ) (small : c < 2 ^ 29) (y k : ℤ) (wy : Within c y) (wk : Within c k) where
  doubled : sub_uint32 (to_uint32 y + to_uint32 y) (to_uint32 k) ≡ to_uint32 (y +ℤ y -ℤ k)
  doubled = pattern-sub (to_uint32 y + to_uint32 y) (y +ℤ y) k (pattern-add y y)

  -- A component whose corner has the sign of the other's.
  pub mirrored :
      half (
        to_int32 (
          (to_uint32 (neg32 (to_int32 (sub_uint32 (to_uint32 y + to_uint32 y) (to_uint32 k))))
            + to_uint32 k)
          % 2 ^ 32))
      ≡ k -ℤ y
  mirrored =
      let z = y +ℤ y -ℤ k in
      let m = pos 0 -ℤ z in
      let d = k -ℤ y in
      let zp = -ℤ_parts (y +ℤ y) k in
      let yp = +ℤ_parts y y in
      let mp = -ℤ_parts (pos 0) z in
      let wz : wrap32 z ≡ z = wrap32_id z (
        omega (arith, zp, yp, small, wy.0, wy.1, wk.0, wk.1),
        omega (arith, zp, yp, small, wy.0, wy.1, wk.0, wk.1),
      ) in
      let wm : wrap32 m ≡ m = wrap32_id m (
        omega (arith, mp, zp, yp, small, wy.0, wy.1, wk.0, wk.1),
        omega (arith, mp, zp, yp, small, wy.0, wy.1, wk.0, wk.1),
      ) in
      let total : m +ℤ k ≡ d +ℤ d =
        eq_of_parts (m +ℤ k) (d +ℤ d)
          (omega (arith, +ℤ_parts m k, +ℤ_parts d d, -ℤ_parts k y, mp, zp, yp)) in
      let wt : wrap32 (m +ℤ k) ≡ m +ℤ k = wrap32_id (m +ℤ k) (
        omega (arith, +ℤ_parts m k, mp, zp, yp, small, wy.0, wy.1, wk.0, wk.1),
        omega (arith, +ℤ_parts m k, mp, zp, yp, small, wy.0, wy.1, wk.0, wk.1),
      ) in
      rw (doubled, wz, wm, pattern-add m k, wt, total) (half-double d)

  -- One whose corner has the other sign.
  pub exchanged :
      (j : ℤ)
      → j ≡ pos 0 -ℤ k
      → half
          (to_int32 ((sub_uint32 (to_uint32 y + to_uint32 y) (to_uint32 k) + to_uint32 j) % 2 ^ 32))
        ≡ y -ℤ k
  exchanged j e =
      let z = y +ℤ y -ℤ k in
      let d = y -ℤ k in
      let zp = -ℤ_parts (y +ℤ y) k in
      let yp = +ℤ_parts y y in
      let jp = -ℤ_parts (pos 0) k in
      let total : z +ℤ (pos 0 -ℤ k) ≡ d +ℤ d =
        eq_of_parts (z +ℤ (pos 0 -ℤ k)) (d +ℤ d)
          (omega (arith, +ℤ_parts z (pos 0 -ℤ k), +ℤ_parts d d, -ℤ_parts y k, jp, zp, yp)) in
      let wt : wrap32 (z +ℤ (pos 0 -ℤ k)) ≡ z +ℤ (pos 0 -ℤ k) = wrap32_id (z +ℤ (pos 0 -ℤ k)) (
        omega (arith, +ℤ_parts z (pos 0 -ℤ k), jp, zp, yp, small, wy.0, wy.1, wk.0, wk.1),
        omega (arith, +ℤ_parts z (pos 0 -ℤ k), jp, zp, yp, small, wy.0, wy.1, wk.0, wk.1),
      ) in
      rw (e, doubled, pattern-add z (pos 0 -ℤ k), wt, total) (half-double d)
