-- ===== src/Transform/Normal/Laws.antt =====
-- ComputeOriginalValue against ComputeCorrection.
use mathlib.Core.Path.{subst}
use go_draco.Transform.Normal.{
  is_in_bottom_left, invert_if, rotation_count, compute_original_value, compute_correction, turns,
  rotate,
}
use go_draco.Transform.Normal.Rotation.{WithinBoth, rotate-WithinBoth, corrected, rotate_back}
use go_draco.Transform.Normal.{centered}
use go_draco.Transform.Octahedron.{Octahedron, is_zero, sub32, add32, is_in_diamond}
use go_draco.Transform.Octahedron.Twice.{
  signed, neg_parts, Found, signed-Within, invert_diamond-twice, invert_diamond-signed,
}
use go_draco.Common.Int.{
  pos, ◌-ℤ◌, eq_of_parts, -ℤ_parts, -ℤ_parts, wrap32_id, ℤ, wrap32, ◌+ℤ◌, +ℤ_parts, ltb_ℤ,
}
use go_draco.Common.{
  ℕ, zero, suc, ◌+◌, ◌-◌, ◌*◌, ◌%◌, ◌^◌, ◌≤◌, ◌<◌, ◌≡◌, refl, sym, ap, ◌∙◌, inl, inr, Bool, true,
  false, Bool-cases, arith, ltb, if◌then◌else◌, ltb→lt, ltb→ge,
}

-- A point of the square that CanonicalizeOctahedralCoords leaves where it is.
pub record IsCanonical (c x y : ℕ) : Type 0 where
  pub in_x : x ≤ 2 * c
  pub in_y : y ≤ 2 * c
  pub left : x ≡ 0 → y ≤ c
  pub right : x ≡ 2 * c → c ≤ y
  pub bottom : y ≡ 0 → x ≤ c
  pub top : y ≡ 2 * c → c ≤ x
  pub no_corner : 0 < x + y

-- The point by the signs of its distance from the centre.
record Placed (c x y : ℕ) : Type 0 where
  sign_s : Bool
  sign_v : Bool
  dist_s : ℕ
  dist_v : ℕ
  place_s : pos x -ℤ pos c ≡ signed sign_s dist_s
  place_v : pos y -ℤ pos c ≡ signed sign_v dist_v
  in_s : dist_s ≤ c
  in_v : dist_v ≤ c
  before : Found sign_s sign_v dist_s dist_v
  after : IsCanonical c x y → Found sign_s sign_v (c - dist_v) (c - dist_s)

above : (c x : ℕ) → c ≤ x → pos x -ℤ pos c ≡ signed true (x - c)
above c x h = eq_of_parts _ _ (omega (arith, -ℤ_parts (pos x) (pos c), h))

below : (c x : ℕ) → x ≤ c → pos x -ℤ pos c ≡ signed false (c - x)
below c x h = eq_of_parts _ _ (omega (arith, -ℤ_parts (pos x) (pos c), neg_parts (c - x), h))

-- A distance that is zero on one line only, where the point is not.
pub not_at : (x line dist : ℕ) → (x ≡ line → ⊥) → (dist ≡ 0 → x ≡ line) → 0 < dist
not_at x line zero off on = absurd (off (on refl))
not_at x line (suc d) off on = omega arith

module _ (c x y : ℕ) (hx : x ≤ 2 * c) (hy : y ≤ 2 * c) where
  both_above : c ≤ x → c ≤ y → Placed c x y
  both_above r h = record {
    sign_s = true;
    sign_v = true;
    dist_s = x - c;
    dist_v = y - c;
    place_s = above c x r;
    place_v = above c y h;
    in_s = omega (arith, hx);
    in_v = omega (arith, hy);
    before = tt;
    after = λ k. tt;
  }

  both_below : x ≤ c → y ≤ c → x + y < 2 * c → Placed c x y
  both_below l b less = record {
    sign_s = false;
    sign_v = false;
    dist_s = c - x;
    dist_v = c - y;
    place_s = below c x l;
    place_v = below c y b;
    in_s = omega arith;
    in_v = omega arith;
    before = omega (arith, l, b, less);
    after = λ k. omega (arith, l, b, k.no_corner);
  }

  right_below : c < x → y < c → Placed c x y
  right_below r b = record {
    sign_s = true;
    sign_v = false;
    dist_s = x - c;
    dist_v = c - y;
    place_s = above c x (omega (arith, r));
    place_v = below c y (omega (arith, b));
    in_s = omega (arith, hx);
    in_v = omega arith;
    before = (omega (arith, r), omega (arith, b));
    after = λ k. (
      not_at y 0 (c - (c - y)) (λ e. absurd (omega (arith, k.bottom e, r)))
          (λ e. omega (arith, e, b)),
      not_at x (2 * c) (c - (x - c)) (λ e. absurd (omega (arith, k.right e, b)))
          (λ e. omega (arith, e, hx, r)),
    );
  }

  left_above : x < c → c < y → Placed c x y
  left_above l h = record {
    sign_s = false;
    sign_v = true;
    dist_s = c - x;
    dist_v = y - c;
    place_s = below c x (omega (arith, l));
    place_v = above c y (omega (arith, h));
    in_s = omega arith;
    in_v = omega (arith, hy);
    before = (omega (arith, l), omega (arith, h));
    after = λ k. (
      not_at y (2 * c) (c - (y - c)) (λ e. absurd (omega (arith, k.top e, l)))
          (λ e. omega (arith, e, hy, h)),
      not_at x 0 (c - (c - x)) (λ e. absurd (omega (arith, k.left e, h)))
          (λ e. omega (arith, e, l)),
    );
  }

  place : Placed c x y
  place = elim (Bool-cases (ltb x c)) [
    | inr right ↦ elim (Bool-cases (ltb y c)) [
      | inr high ↦ both_above (ltb→ge x c right) (ltb→ge y c high)
      | inl low ↦ elim (Bool-cases (ltb c x)) [
        | inl apart ↦ right_below (ltb→lt c x apart) (ltb→lt y c low)
        | inr middle ↦
            both_below (ltb→ge c x middle) (omega (arith, ltb→lt y c low))
              (omega (arith, ltb→lt y c low, ltb→ge c x middle))
      ]
    ]
    | inl left ↦ elim (Bool-cases (ltb c y)) [
      | inl apart ↦ left_above (ltb→lt x c left) (ltb→lt c y apart)
      | inr middle ↦
          both_below (omega (arith, ltb→lt x c left)) (ltb→ge c y middle)
            (omega (arith, ltb→lt x c left, ltb→ge c y middle))
    ]
  ]

if-le : (b : Bool) (m n : ℕ) → m ≤ 3 → n ≤ 3 → (if b then m else n) ≤ 3
if-le true m n hm hn = hm
if-le false m n hm hn = hn

rotation_count-le : (x y : ℤ) → rotation_count x y ≤ 3
unfolding rotation_count
rotation_count-le x y =
    let upright = if-le (ltb_ℤ (pos 0) y) in
    if-le (is_zero x) _ _
      (if-le (is_zero y) 0 _ (omega arith) (upright 3 1 (omega arith) (omega arith)))
      (if-le (ltb_ℤ (pos 0) x) _ _ (if-le (ltb_ℤ y (pos 0)) 1 2 (omega arith) (omega arith))
        (upright 3 0 (omega arith) (omega arith)))

module _ (t : Octahedron) (small : t.center_value < 2 ^ 29)
    (side : t.max_quantized_value ≡ 2 * t.center_value + 1) where
  abbrev c : ℕ
  c = t.center_value

  -- A point of the square, as its distance from the centre.
  module _ (x y : ℕ) (hx : x ≤ 2 * c) (hy : y ≤ 2 * c) where
    abbrev at : Placed c x y
    at = place c x y hx hy

    centered-placed :
        centered t (pos x, pos y) ≡ (signed at.sign_s at.dist_s, signed at.sign_v at.dist_v)
    centered-placed = λ i. ((shift x hx ∙ at.place_s) i, (shift y hy ∙ at.place_v) i)
      where
        shift : (z : ℕ) → z ≤ 2 * c → sub32 (pos z) (pos c) ≡ pos z -ℤ pos c
        shift z h = wrap32_id (pos z -ℤ pos c) (
          omega (arith, -ℤ_parts (pos z) (pos c), small, h),
          omega (arith, -ℤ_parts (pos z) (pos c), small, h),
        )

    -- The point stays in the square, inverted or not.
    invert_if-WithinBoth :
        (inside : Bool) → WithinBoth c (invert_if t inside (centered t (pos x, pos y)))
    invert_if-WithinBoth true =
        subst (WithinBoth c) (sym centered-placed)
          (signed-Within c at.sign_s at.dist_s at.in_s, signed-Within c at.sign_v at.dist_v at.in_v)
    invert_if-WithinBoth false =
        subst (λ q. WithinBoth c (invert_if t false q)) (sym centered-placed)
          (subst (WithinBoth c)
            (sym (
              invert_diamond-signed t small at.sign_s at.sign_v at.dist_s at.dist_v at.in_s at.in_v
                at.before))
            (
              signed-Within c at.sign_s (c - at.dist_v) (omega arith),
              signed-Within c at.sign_v (c - at.dist_s) (omega arith),
            ))

    -- A second inversion takes a canonical point back.
    invert_if_twice :
        IsCanonical c x y
        → (inside : Bool)
        → invert_if t inside (invert_if t inside (centered t (pos x, pos y)))
          ≡ centered t (pos x, pos y)
    invert_if_twice k true = refl
    invert_if_twice k false =
        ap (λ q. invert_if t false (invert_if t false q)) centered-placed
        ∙ invert_diamond-twice t small at.sign_s at.sign_v at.dist_s at.dist_v
            (record { in_s = at.in_s; in_v = at.in_v; before = at.before; after = at.after k })
        ∙ sym centered-placed

  turns-le : (p : ℤ × ℤ) → turns t p ≤ 3
  turns-le (x, y) = elim (Bool-cases (is_in_bottom_left x y)) [
    | inl turned ↦ rw turned (omega arith)
    | inr around ↦ rw around (rotation_count-le x y)
  ]

  uncentered :
      (x y : ℕ)
      → x ≤ 2 * c
      → y ≤ 2 * c
      → (add32 (centered t (pos x, pos y)).0 (pos c) ≡ pos x)
        × (add32 (centered t (pos x, pos y)).1 (pos c) ≡ pos y)
  uncentered x y hx hy = (back x hx, back y hy)
    where
      back : (z : ℕ) → z ≤ 2 * c → add32 (sub32 (pos z) (pos c)) (pos c) ≡ pos z
      back z h =
          let d = pos z -ℤ pos c in
          let dp = -ℤ_parts (pos z) (pos c) in
          let w : wrap32 d ≡ d =
            wrap32_id d (omega (arith, dp, small, h), omega (arith, dp, small, h)) in
          rw w (
            ap wrap32 (eq_of_parts (d +ℤ pos c) (pos z) (omega (arith, +ℤ_parts d (pos c), dp)))
            ∙ wrap32_id (pos z) (omega arith, omega (arith, small, h)))

  -- Let the side of the square be odd and its middle below 2^29. For a prediction in the square and
  -- a canonical original value, ComputeOriginalValue returns the original value from the correction
  -- that ComputeCorrection makes.
  pub compute_original_value-correction :
      (x y a b : ℕ)
      → IsCanonical c x y
      → a ≤ 2 * c
      → b ≤ 2 * c
      → compute_original_value t (pos a, pos b) (compute_correction t (pos x, pos y) (pos a, pos b))
        ≡ (pos x, pos y)
  unfolding compute_original_value compute_correction
  compute_original_value-correction x y a b k ha hb =
      let inside = is_in_diamond t (centered t (pos a, pos b)).0 (centered t (pos a, pos b)).1 in
      let p = invert_if t inside (centered t (pos a, pos b)) in
      let o = invert_if t inside (centered t (pos x, pos y)) in
      let n = turns t p in
      let wo = invert_if-WithinBoth x y k.in_x k.in_y inside in
      let wp = invert_if-WithinBoth a b ha hb inside in
      let ro = rotate-WithinBoth c small n o wo in
      let rp = rotate-WithinBoth c small n p wp in
      let first = corrected t small side (rotate n o).0 (rotate n p).0 ro.0 rp.0 in
      let second = corrected t small side (rotate n o).1 (rotate n p).1 ro.1 rp.1 in
      ap
        (λ (q : ℤ × ℤ). (
          add32 (invert_if t inside (rotate ((4 - n) % 4) q)).0 (pos c),
          add32 (invert_if t inside (rotate ((4 - n) % 4) q)).1 (pos c),
        ))
        (λ i. (first i, second i))
      ∙ ap
          (λ (q : ℤ × ℤ).
            (add32 (invert_if t inside q).0 (pos c), add32 (invert_if t inside q).1 (pos c)))
          (rotate_back c small n o (turns-le p) wo)
      ∙ ap (λ (q : ℤ × ℤ). (add32 q.0 (pos c), add32 q.1 (pos c)))
          (invert_if_twice x y k.in_x k.in_y k inside)
      ∙ (λ i. ((uncentered x y k.in_x k.in_y).0 i, (uncentered x y k.in_x k.in_y).1 i))
