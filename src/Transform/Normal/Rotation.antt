-- ===== src/Transform/Normal/Rotation.antt =====
-- Quarter turns, and corrections modulo the side of the square.
use go_draco.Transform.Octahedron.Twice.{neg_parts}
use go_draco.Transform.Octahedron.Twice.{signed-Within}
use go_draco.Transform.Octahedron.Inversion.{minus-pos, minus-neg}
use mathlib.Core.Path.{subst}
use go_draco.Transform.Octahedron.Patterns.{Within, pattern-add}
use go_draco.Transform.Normal.{rotate, add_as_unsigned}
use go_draco.Common.Int.{
  ℤ, pos_part, ◌-ℤ◌, pos, neg_part, wrap32_id, -ℤ_parts, eq_of_parts, -ℤ_parts, ltb_ℤ, negsuc,
  wrap32, +ℤ_parts, ◌+ℤ◌, to_int32,
}
use go_draco.Transform.Octahedron.{Octahedron, neg32, sub32, mod_max, make_positive, add32, neg}
use go_draco.Common.{
  ℕ, zero, suc, ◌+◌, ◌-◌, ◌*◌, ◌%◌, ◌^◌, ◌≤◌, ◌<◌, ◌≡◌, refl, sym, ap, ◌∙◌, inl, inr, true, false,
  Bool-cases, arith, ltb→lt, lt→ltb, ge→ltb,
}

abbrev pub WithinBoth : ℕ → ℤ × ℤ → Type 0
WithinBoth c (x, y) = Within c x × Within c y

module _ (c : ℕ) (small : c < 2 ^ 29) where
  neg32-minus : (z : ℤ) → Within c z → neg32 z ≡ pos 0 -ℤ z
  neg32-minus z w = wrap32_id (pos 0 -ℤ z) (
    omega (arith, -ℤ_parts (pos 0) z, small, w.0, w.1),
    omega (arith, -ℤ_parts (pos 0) z, small, w.0, w.1),
  )

  neg32-Within : (z : ℤ) → Within c z → Within c (neg32 z)
  neg32-Within (pos n) w =
      subst (Within c) (sym (neg32-minus (pos n) w ∙ minus-pos n)) (signed-Within c false n w.0)
  neg32-Within (negsuc n) w =
      subst (Within c) (sym (neg32-minus (negsuc n) w ∙ minus-neg (suc n)))
        (signed-Within c true (suc n) w.1)

  neg32_twice : (z : ℤ) → Within c z → neg32 (neg32 z) ≡ z
  neg32_twice z w =
      neg32-minus (neg32 z) (neg32-Within z w)
      ∙ ap (λ x. pos 0 -ℤ x) (neg32-minus z w)
      ∙ eq_of_parts _ _ (omega (arith, -ℤ_parts (pos 0) (pos 0 -ℤ z), -ℤ_parts (pos 0) z))

  pub rotate-WithinBoth : (n : ℕ) (p : ℤ × ℤ) → WithinBoth c p → WithinBoth c (rotate n p)
  unfolding rotate
  rotate-WithinBoth zero (x, y) w = w
  rotate-WithinBoth (suc zero) (x, y) w = (w.1, neg32-Within x w.0)
  rotate-WithinBoth (suc (suc zero)) (x, y) w = (neg32-Within x w.0, neg32-Within y w.1)
  rotate-WithinBoth (suc (suc (suc zero))) (x, y) w = (neg32-Within y w.1, w.0)
  rotate-WithinBoth (suc (suc (suc (suc n)))) (x, y) w = w

  pub rotate_back :
      (n : ℕ) (p : ℤ × ℤ) → n ≤ 3 → WithinBoth c p → rotate ((4 - n) % 4) (rotate n p) ≡ p
  unfolding rotate
  rotate_back zero (x, y) h w = refl
  rotate_back (suc zero) (x, y) h w = λ i. (neg32_twice x w.0 i, y)
  rotate_back (suc (suc zero)) (x, y) h w = λ i. (neg32_twice x w.0 i, neg32_twice y w.1 i)
  rotate_back (suc (suc (suc zero))) (x, y) h w = λ i. (x, neg32_twice y w.1 i)
  rotate_back (suc (suc (suc (suc n)))) (x, y) h w = absurd (omega (arith, h))

module _ (t : Octahedron) (small : t.center_value < 2 ^ 29)
    (side : t.max_quantized_value ≡ 2 * t.center_value + 1) (o p : ℤ) (wo : Within t.center_value o)
    (wp : Within t.center_value p) where
  abbrev c : ℕ
  c = t.center_value

  abbrev d : ℤ
  d = o -ℤ p

  dp : pos_part d + neg_part o + pos_part p ≡ neg_part d + pos_part o + neg_part p
  dp = -ℤ_parts o p

  no_wrap : sub32 o p ≡ d
  no_wrap = wrap32_id d (
    omega (arith, dp, small, wo.0, wo.1, wp.0, wp.1),
    omega (arith, dp, small, wo.0, wo.1, wp.0, wp.1),
  )

  add_as_unsigned-eq : (x : ℤ) → add_as_unsigned p x ≡ wrap32 (p +ℤ x)
  unfolding add_as_unsigned
  add_as_unsigned-eq x = ap to_int32 (pattern-add p x)

  lowest : neg32 (pos c) ≡ neg c
  lowest =
      wrap32_id (pos 0 -ℤ pos c) (
        omega (arith, -ℤ_parts (pos 0) (pos c), small),
        omega (arith, -ℤ_parts (pos 0) (pos c), small),
      )
      ∙ minus-pos c

  mod_max_inside : mod_max t o ≡ o
  unfolding mod_max
  mod_max_inside =
      rw
        (
          lowest,
          ge→ltb (c + neg_part o) (pos_part o + 0) (omega (arith, wo.0)),
          ge→ltb (pos_part o + neg_part (neg c)) (pos_part (neg c) + neg_part o)
              (omega (arith, wo.1, neg_parts c)),
        )
        refl

  mod_max_above : mod_max t (o +ℤ pos t.max_quantized_value) ≡ o
  unfolding mod_max
  mod_max_above =
      let m = pos t.max_quantized_value in
      let x = o +ℤ m in
      let xp = +ℤ_parts o m in
      let back : x -ℤ m ≡ o = eq_of_parts _ _ (omega (arith, -ℤ_parts x m, xp)) in
      rw (lt→ltb (c + neg_part x) (pos_part x + 0) (omega (arith, xp, side, wo.1))) (
        ap wrap32 back
        ∙ wrap32_id o (omega (arith, small, wo.0, wo.1), omega (arith, small, wo.0, wo.1)))

  -- A difference that is kept.
  kept : mod_max t (add_as_unsigned p d) ≡ o
  kept =
      let sum : p +ℤ d ≡ o = eq_of_parts _ _ (omega (arith, +ℤ_parts p d, dp)) in
      ap (mod_max t) (
        add_as_unsigned-eq d
        ∙ ap wrap32 sum
        ∙ wrap32_id o (omega (arith, small, wo.0, wo.1), omega (arith, small, wo.0, wo.1)))
      ∙ mod_max_inside

  -- A negative difference, to which the side is added.
  raised :
      ltb_ℤ d (pos 0) ≡ true
      → mod_max t (add_as_unsigned p (add32 d (pos t.max_quantized_value))) ≡ o
  raised h =
      let m = pos t.max_quantized_value in
      let less : pos_part d + 0 < 0 + neg_part d = ltb→lt _ _ h in
      let lp = +ℤ_parts d m in
      let lift : add32 d m ≡ d +ℤ m = wrap32_id (d +ℤ m) (
        omega (arith, lp, dp, less, side, small, wo.0, wo.1, wp.0, wp.1),
        omega (arith, lp, dp, less, side, small, wo.0, wo.1, wp.0, wp.1),
      ) in
      let x = o +ℤ m in
      let sum : p +ℤ (d +ℤ m) ≡ x =
        eq_of_parts _ _ (omega (arith, +ℤ_parts p (d +ℤ m), lp, dp, +ℤ_parts o m)) in
      let fits : wrap32 x ≡ x = wrap32_id x (
        omega (arith, +ℤ_parts o m, side, small, wo.0, wo.1),
        omega (arith, +ℤ_parts o m, side, small, wo.0, wo.1),
      ) in
      ap (λ y. mod_max t (add_as_unsigned p y)) lift
      ∙ ap (mod_max t) (add_as_unsigned-eq (d +ℤ m) ∙ ap wrap32 sum ∙ fits)
      ∙ mod_max_above

  pub corrected : mod_max t (add_as_unsigned p (make_positive t (sub32 o p))) ≡ o
  unfolding make_positive
  corrected = elim (Bool-cases (ltb_ℤ d (pos 0))) [
    | inl less ↦ rw (no_wrap, less) (raised less)
    | inr more ↦ rw (no_wrap, more) kept
  ]
