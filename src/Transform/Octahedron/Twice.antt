-- ===== src/Transform/Octahedron/Twice.antt =====
-- InvertDiamond twice.
use go_draco.Transform.Octahedron.Patterns.{Within}
use go_draco.Transform.Octahedron.Inversion.{inverted, invert_from-inverted}
use go_draco.Common.Int.{◌-ℤ◌, pos, neg_part, eq_of_parts, -ℤ_parts, -ℤ_parts}
use go_draco.Transform.Octahedron.Inversion.{corner}
use go_draco.Transform.Octahedron.{Octahedron, neg, signs, invert_diamond}
use go_draco.Common.Int.{pos_part, ℤ}
use go_draco.Common.{
  ℕ, zero, suc, ◌+◌, ◌-◌, ◌^◌, ◌≤◌, ◌<◌, ◌≡◌, refl, ◌∙◌, Bool, true, false, not, arith,
}

-- A number of the sign of one class, with zero in both.
abbrev pub signed : Bool → ℕ → ℤ
signed true n = pos n
signed false n = neg n

pub neg_parts : (n : ℕ) → (pos_part (neg n) ≡ 0) × (neg_part (neg n) ≡ n)
neg_parts zero = (refl, refl)
neg_parts (suc n) = (refl, refl)

module _ (c a : ℕ) (h : a ≤ c) where
  -- A corner less a number of its sign, and the other way round.
  corner-minus : (sign : Bool) → corner c sign -ℤ signed sign a ≡ signed sign (c - a)
  corner-minus true = eq_of_parts _ _ (omega (arith, -ℤ_parts (pos c) (pos a), h))
  corner-minus false =
      eq_of_parts _ _
        (omega (arith, -ℤ_parts (neg c) (neg a), neg_parts c, neg_parts a, neg_parts (c - a), h))

  minus-corner : (sign : Bool) → signed sign a -ℤ corner c sign ≡ signed (not sign) (c - a)
  minus-corner true =
      eq_of_parts _ _ (omega (arith, -ℤ_parts (pos a) (pos c), neg_parts (c - a), h))
  minus-corner false =
      eq_of_parts _ _ (omega (arith, -ℤ_parts (neg a) (neg c), neg_parts c, neg_parts a, h))

-- Signs that the switch finds: two zeros count as positive, one zero as of the other's sign.
abbrev pub Found : Bool → Bool → ℕ → ℕ → Type 0
Found true true a b = Unit {0}
Found false false a b = 0 < a + b
Found true false a b = (0 < a) × (0 < b)
Found false true a b = (0 < a) × (0 < b)

signs-Found : (p q : Bool) (a b : ℕ) → Found p q a b → signs (signed p a) (signed q b) ≡ (p, q)
signs-Found true true a b h = ground arith
signs-Found false false zero zero h = absurd (omega (arith, h))
signs-Found false false zero (suc b) h = ground arith
signs-Found false false (suc a) zero h = ground arith
signs-Found false false (suc a) (suc b) h = ground arith
signs-Found true false a zero h = absurd (omega (arith, h))
signs-Found true false zero (suc b) h = absurd (omega (arith, h))
signs-Found true false (suc a) (suc b) h = ground arith
signs-Found false true zero b h = absurd (omega (arith, h))
signs-Found false true (suc a) zero h = absurd (omega (arith, h))
signs-Found false true (suc a) (suc b) h = ground arith

inverted-signed :
    (c : ℕ) (p q : Bool) (a b : ℕ)
    → a ≤ c
    → b ≤ c
    → inverted c p q (signed p a) (signed q b) ≡ (signed p (c - b), signed q (c - a))
inverted-signed c true true a b ha hb = rw (corner-minus c a ha true, corner-minus c b hb true) refl
inverted-signed c false false a b ha hb =
    rw (corner-minus c a ha false, corner-minus c b hb false) refl
inverted-signed c true false a b ha hb =
    rw (minus-corner c a ha true, minus-corner c b hb false) refl
inverted-signed c false true a b ha hb =
    rw (minus-corner c a ha false, minus-corner c b hb true) refl

pub signed-Within : (c : ℕ) (p : Bool) (a : ℕ) → a ≤ c → Within c (signed p a)
signed-Within c true a h = (h, omega arith)
signed-Within c false a h = (omega (arith, neg_parts a), omega (arith, neg_parts a, h))

-- A point by the signs that the switch finds, such that it finds them again after the inversion.
pub record Mirrored (c : ℕ) (p q : Bool) (a b : ℕ) : Type 0 where
  pub in_s : a ≤ c
  pub in_v : b ≤ c
  pub before : Found p q a b
  pub after : Found p q (c - b) (c - a)

module _ (t : Octahedron) (small : t.center_value < 2 ^ 29) (p q : Bool) where
  abbrev c : ℕ
  c = t.center_value

  pub invert_diamond-signed :
      (a b : ℕ)
      → a ≤ c
      → b ≤ c
      → Found p q a b
      → invert_diamond t (signed p a) (signed q b) ≡ (signed p (c - b), signed q (c - a))
  unfolding invert_diamond
  invert_diamond-signed a b ha hb h = rw (signs-Found p q a b h) (
      invert_from-inverted t small (signed p a) (signed q b) (signed-Within c p a ha)
        (signed-Within c q b hb) p q
      ∙ inverted-signed c p q a b ha hb)

  pub invert_diamond-twice :
      (a b : ℕ)
      → Mirrored c p q a b
      → let (s, v) = invert_diamond t (signed p a) (signed q b) in
        invert_diamond t s v ≡ (signed p a, signed q b)
  invert_diamond-twice a b h = rw (invert_diamond-signed a b h.in_s h.in_v h.before) (
      invert_diamond-signed (c - b) (c - a) (omega arith) (omega arith) h.after
      ∙ (λ i. (signed p (back a h.in_s i), signed q (back b h.in_v i))))
    where
      back : (x : ℕ) → x ≤ c → c - (c - x) ≡ x
      back x k = omega (arith, k)
