-- ===== src/Transform/Normal/Canonical.antt =====
-- CanonicalizeOctahedralCoords leaves one representation of each point.
use go_draco.Transform.Octahedron.{
  Octahedron, canonicalize_octahedral_coords, sub32, add32, is_zero,
}
use go_draco.Transform.Normal.Laws.{IsCanonical, not_at}
use go_draco.Common.Int.{
  pos, ℤ, negsuc, ◌-ℤ◌, -ℤ_parts, -ℤ_parts, wrap32_id, wrap32, eq_of_parts, ◌+ℤ◌, +ℤ_parts, ltb_ℤ,
}
use go_draco.Common.{
  ℕ, zero, suc, ◌+◌, ◌-◌, ◌*◌, ◌^◌, ◌≤◌, ◌<◌, ◌≡◌, ◌≢◌, refl, sym, ap, ◌∙◌, Bool, true, false, ◌&&◌,
  ◌||◌, arith, ltb, ◌==◌, if◌then◌else◌, ne→==_false,
}

unfoldable pub IsCanonicalPoint : ℕ → ℤ × ℤ → Type 0
IsCanonicalPoint c (pos x, pos y) = IsCanonical c x y
IsCanonicalPoint c (pos x, negsuc y) = ⊥
IsCanonicalPoint c (negsuc x, y) = ⊥

-- What a branch of an if gives, with what its test has shown.
guard :
    (c : ℕ) (b : Bool) (p q : ℤ × ℤ)
    → (b ≡ true → IsCanonicalPoint c p)
    → (b ≡ false → IsCanonicalPoint c q)
    → IsCanonicalPoint c (if b then p else q)
guard c true p q hp hq = hp refl
guard c false p q hp hq = hq refl

zero_test : (x : ℕ) → is_zero (pos x) ≡ (x == 0)
zero_test zero = refl
zero_test (suc x) = sym (ne→==_false (suc x) 0 (λ e. omega (arith, e)))

less_test : (x y : ℕ) → ltb_ℤ (pos x) (pos y) ≡ ltb x y
less_test x y = ground arith

corners :
    (m s v : ℕ)
    → ((s == 0) && (v == 0) || (s == 0) && (v == m) || (s == m) && (v == 0)) ≡ false
    → (s ≡ 0 → 0 < v) × (s ≡ 0 → v ≢ m) × (s ≡ m → 0 < v)
corners m s v h =
    (λ e. ground (arith, h, e), λ e f. ground (arith, h, e, f), λ e. ground (arith, h, e))

edge_on : (a b c d : ℕ) → ((a == b) && ltb c d) ≡ true → (a ≡ b) × (c < d)
edge_on a b c d h = (ground (arith, h), ground (arith, h))

edge_off : (a b c d : ℕ) → ((a == b) && ltb c d) ≡ false → a ≡ b → d ≤ c
edge_off a b c d h e = ground (arith, h, e)

somewhere : (s v : ℕ) → (s ≡ 0 → 0 < v) → 0 < s + v
somewhere zero v h = omega (arith, h refl)
somewhere (suc s) v h = omega arith

module _ (t : Octahedron) (small : t.center_value < 2 ^ 29)
    (even : t.max_value ≡ 2 * t.center_value) where
  abbrev c : ℕ
  c = t.center_value

  down : (v : ℕ) → v ≤ 2 * c → sub32 (pos c) (sub32 (pos v) (pos c)) ≡ pos (2 * c - v)
  down v h =
      let d = pos v -ℤ pos c in
      let dp = -ℤ_parts (pos v) (pos c) in
      rw (wrap32_id d (omega (arith, dp, small, h), omega (arith, dp, small, h))) (
        ap wrap32
          (eq_of_parts (pos c -ℤ d) (pos (2 * c - v)) (omega (arith, -ℤ_parts (pos c) d, dp, h)))
        ∙ wrap32_id (pos (2 * c - v)) (omega arith, omega (arith, small)))

  up : (v : ℕ) → v ≤ 2 * c → add32 (pos c) (sub32 (pos c) (pos v)) ≡ pos (2 * c - v)
  up v h =
      let d = pos c -ℤ pos v in
      let dp = -ℤ_parts (pos c) (pos v) in
      rw (wrap32_id d (omega (arith, dp, small, h), omega (arith, dp, small, h))) (
        ap wrap32
          (eq_of_parts (pos c +ℤ d) (pos (2 * c - v)) (omega (arith, +ℤ_parts (pos c) d, dp, h)))
        ∙ wrap32_id (pos (2 * c - v)) (omega arith, omega (arith, small)))

  -- The four edges with the half that is folded onto the other one, and what is left.
  module _ (s v : ℕ) (positive : 0 < c) (hs : s ≤ 2 * c) (hv : v ≤ 2 * c) where
    abbrev OffCorners : Type 0
    OffCorners = (s ≡ 0 → 0 < v) × (s ≡ 0 → v ≢ 2 * c) × (s ≡ 2 * c → 0 < v)

    on_left_edge : OffCorners → (s ≡ 0) × (c < v) → IsCanonical c s (2 * c - v)
    on_left_edge off (e, h) =
        let inner = not_at v (2 * c) (2 * c - v) (off.1 e) (λ z. omega (arith, z, hv)) in
        record {
          in_x = hs;
          in_y = omega arith;
          no_corner = omega arith;
          left = λ z. omega arith;
          right = λ z. omega (arith, z, e, positive);
          bottom = λ z. omega (arith, e);
          top = λ z. omega (arith, z, h);
        }

    on_right_edge : OffCorners → (s ≡ 2 * c) × (v < c) → IsCanonical c s (2 * c - v)
    on_right_edge off (e, h) =
        let inner = off.2 e in
        record {
          in_x = hs;
          in_y = omega arith;
          no_corner = omega (arith, h);
          left = λ z. omega (arith, z, e, positive);
          right = λ z. omega (arith, h);
          bottom = λ z. omega (arith, z, h);
          top = λ z. omega (arith, z, h, inner);
        }

    on_top_edge : OffCorners → (v ≡ 2 * c) × (s < c) → IsCanonical c (2 * c - s) v
    on_top_edge off (e, h) =
        let inner : 0 < s = not_at s 0 s (λ z. off.1 z e) (λ z. z) in
        record {
          in_x = omega arith;
          in_y = hv;
          no_corner = omega (arith, h);
          left = λ z. omega (arith, z, h);
          right = λ z. omega (arith, z, h, inner);
          bottom = λ z. omega (arith, z, e, positive);
          top = λ z. omega (arith, h);
        }

    on_bottom_edge : OffCorners → (v ≡ 0) × (c < s) → IsCanonical c (2 * c - s) v
    on_bottom_edge off (e, h) =
        let inner =
          not_at s (2 * c) (2 * c - s) (λ z. omega (arith, off.2 z, e))
            (λ z. omega (arith, z, hs)) in
        record {
          in_x = omega arith;
          in_y = hv;
          no_corner = omega arith;
          left = λ z. omega (arith, e);
          right = λ z. omega (arith, z, h);
          bottom = λ z. omega (arith, h);
          top = λ z. omega (arith, z, e, positive);
        }

    -- On a square of at least three values a side whose middle is below 2^29, every point of the
    -- square is sent to a canonical point of it.
    pub canonicalize_octahedral_coords-IsCanonicalPoint :
        IsCanonicalPoint c (canonicalize_octahedral_coords t (pos s) (pos v))
    unfolding canonicalize_octahedral_coords IsCanonicalPoint
    canonicalize_octahedral_coords-IsCanonicalPoint =
        rw
          (
            even,
            zero_test s,
            zero_test v,
            less_test c v,
            less_test v c,
            less_test s c,
            less_test c s,
          )
          (guard c ((s == 0) && (v == 0) || (s == 0) && (v == 2 * c) || (s == 2 * c) && (v == 0)) _
            _ (λ on. far)
            λ out.
              let off = corners (2 * c) s v out in
              guard c ((s == 0) && ltb c v) _ _
                (λ on. rw (down v hv) (on_left_edge off (edge_on s 0 c v on)))
                λ off_left.
                  guard c ((s == 2 * c) && ltb v c) _ _
                    (λ on. rw (up v hv) (on_right_edge off (edge_on s (2 * c) v c on)))
                    λ off_right.
                      guard c ((v == 2 * c) && ltb s c) _ _
                        (λ on. rw (up s hs) (on_top_edge off (edge_on v (2 * c) s c on)))
                        λ off_top.
                          guard c ((v == 0) && ltb c s) _ _
                            (λ on. rw (down s hs) (on_bottom_edge off (edge_on v 0 c s on)))
                            λ off_bottom. record {
                              in_x = hs;
                              in_y = hv;
                              no_corner = somewhere s v off.0;
                              left = edge_off s 0 c v off_left;
                              right = edge_off s (2 * c) v c off_right;
                              bottom = edge_off v 0 c s off_bottom;
                              top = edge_off v (2 * c) s c off_top;
                            })
      where
        far : IsCanonical c (2 * c) (2 * c)
        far = record {
          in_x = omega arith;
          in_y = omega arith;
          no_corner = omega (arith, positive);
          left = λ z. omega (arith, z, positive);
          right = λ z. omega arith;
          bottom = λ z. omega (arith, z, positive);
          top = λ z. omega arith;
        }
