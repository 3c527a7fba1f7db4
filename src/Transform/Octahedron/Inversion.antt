-- ===== src/Transform/Octahedron/Inversion.antt =====
-- InvertDiamond inside the square, in integer arithmetic.
use go_draco.Common.Int.{◌-ℤ◌, to_uint32, wrap32_id, -ℤ_parts}
use go_draco.Transform.Octahedron.Patterns.{Within, mirrored, exchanged}
use go_draco.Common.Int.{ℤ, pos}
use go_draco.Transform.Octahedron.{Octahedron, neg, corner_point, invert_from}
use go_draco.Common.{
  ℕ, zero, suc, ◌^◌, ◌<◌, ◌≡◌, refl, sym, ap, ◌∙◌, Bool, true, false, arith, if◌then◌else◌,
}

-- The corner of a sign.
abbrev pub corner : ℕ → Bool → ℤ
corner c sign = if sign then pos c else neg c

-- What InvertDiamond computes for these signs.
abbrev pub inverted : ℕ → Bool → Bool → ℤ → ℤ → ℤ × ℤ
inverted c true true s v = (pos c -ℤ v, pos c -ℤ s)
inverted c false false s v = (neg c -ℤ v, neg c -ℤ s)
inverted c true false s v = (v -ℤ neg c, s -ℤ pos c)
inverted c false true s v = (v -ℤ pos c, s -ℤ neg c)

pub minus-pos : (n : ℕ) → pos 0 -ℤ pos n ≡ neg n
unfolding ◌-ℤ◌
minus-pos zero = refl
minus-pos (suc n) = ground arith

pub minus-neg : (n : ℕ) → pos 0 -ℤ neg n ≡ pos n
unfolding ◌-ℤ◌
minus-neg zero = refl
minus-neg (suc n) = ground arith

neg-Within : (n : ℕ) → Within n (neg n)
neg-Within zero = (omega arith, omega arith)
neg-Within (suc n) = (omega arith, omega arith)

module _ (t : Octahedron) (small : t.center_value < 2 ^ 29) (s v : ℤ) (ws : Within t.center_value s)
    (wv : Within t.center_value v) where
  abbrev c : ℕ
  c = t.center_value

  corner_point-eq : (sign : Bool) → corner_point t sign ≡ to_uint32 (corner c sign)
  corner_point-eq true = refl
  corner_point-eq false = ap to_uint32 (
      wrap32_id (pos 0 -ℤ pos c) (
        omega (arith, -ℤ_parts (pos 0) (pos c), small),
        omega (arith, -ℤ_parts (pos 0) (pos c), small),
      )
      ∙ minus-pos c)

  Within-corner : (sign : Bool) → Within c (corner c sign)
  Within-corner true = (omega arith, omega arith)
  Within-corner false = neg-Within c

  pub invert_from-inverted : (a b : Bool) → invert_from t a b s v ≡ inverted c a b s v
  unfolding invert_from
  invert_from-inverted true true = λ i. (
    mirrored c small v (pos c) wv (Within-corner true) i,
    mirrored c small s (pos c) ws (Within-corner true) i,
  )
  invert_from-inverted true false = rw (corner_point-eq false) (λ i. (
    exchanged c small v (neg c) wv (Within-corner false) (pos c) (sym (minus-neg c)) i,
    exchanged c small s (pos c) ws (Within-corner true) (neg c) (sym (minus-pos c)) i,
  ))
  invert_from-inverted false true = rw (corner_point-eq false) (λ i. (
    exchanged c small v (pos c) wv (Within-corner true) (neg c) (sym (minus-pos c)) i,
    exchanged c small s (neg c) ws (Within-corner false) (pos c) (sym (minus-neg c)) i,
  ))
  invert_from-inverted false false = rw (corner_point-eq false) (λ i. (
    mirrored c small v (neg c) wv (Within-corner false) i,
    mirrored c small s (neg c) ws (Within-corner false) i,
  ))
