-- ===== src/Transform/Wrap/Tests.antt =====
-- Concrete wrap transforms, and the theorems at concrete inputs.
use go_draco.Common.{◌+◌, ◌^◌, ◌-◌, ◌≡◌, ◌≢◌, refl, List, [], ◌∷◌, some, All, ok, arith}
use go_draco.Common.Int.{ℤ, pos, negsuc, ◌+ℤ◌, ◌-ℤ◌}
use go_draco.Transform.Wrap.{
  Wrap, zero_wrap, init_from_values, init, set_bounds, value_range, clamp, correction,
  original_value, compute_correction, compute_original_value,
}
use go_draco.Transform.Wrap.Laws.{IsReady, InRange, HasRoom, compute_original-correction}
use go_draco.Transform.Wrap.Bounds.{init_from_values-InRange, original_value-lost}

-- The transform of the values -3, 4 and 1.
abbrev small : Wrap
small = record {
  num_components = 2;
  min_value = negsuc 2;
  max_value = pos 4;
  max_dif = pos 8;
  max_correction = pos 3;
  min_correction = negsuc 3;
}

small_made : init_from_values (pos 1 ∷ negsuc 2 ∷ pos 4 ∷ []) 2 zero_wrap ≡ (ok tt, small)
unfolding init_from_values init value_range set_bounds ◌-ℤ◌
small_made = refl

small-IsReady : IsReady small
unfolding ◌+ℤ◌ ◌-ℤ◌
small-IsReady = omega arith

small-HasRoom : HasRoom small
unfolding ◌+ℤ◌
small-HasRoom = omega arith

compute_original-correction_example :
    (cs : List ℤ) × (compute_correction small (pos 4 ∷ negsuc 2 ∷ []) (negsuc 9 ∷ pos 0 ∷ [])
      ≡ some cs)
    × (compute_original_value small (negsuc 9 ∷ pos 0 ∷ []) cs ≡ some (pos 4 ∷ negsuc 2 ∷ []))
compute_original-correction_example =
    compute_original-correction small small-IsReady small-HasRoom (pos 4 ∷ negsuc 2 ∷ [])
      (negsuc 9 ∷ pos 0 ∷ []) (omega arith) refl refl

narrow_values : pos 4 -ℤ negsuc 2 ≡ pos 7
unfolding ◌-ℤ◌
narrow_values = refl

init_from_values-InRange_example :
    ((init_from_values (pos 1 ∷ negsuc 2 ∷ pos 4 ∷ []) 2 zero_wrap).0 ≡ ok tt)
    × IsReady (init_from_values (pos 1 ∷ negsuc 2 ∷ pos 4 ∷ []) 2 zero_wrap).1
    × All
        (InRange (init_from_values (pos 1 ∷ negsuc 2 ∷ pos 4 ∷ []) 2 zero_wrap).1)
        (pos 1 ∷ negsuc 2 ∷ pos 4 ∷ [])
    × ((init_from_values (pos 1 ∷ negsuc 2 ∷ pos 4 ∷ []) 2 zero_wrap).1.num_components ≡ 2)
init_from_values-InRange_example =
    init_from_values-InRange (negsuc 2) (pos 4) (pos 1) (negsuc 2 ∷ pos 4 ∷ []) 2 zero_wrap
      (omega arith) (omega arith) (rw narrow_values (omega arith)) (omega arith)

-- Values from 2 to 2^31 - 1.
abbrev high : Wrap
high = record {
  num_components = 1;
  min_value = pos 2;
  max_value = pos (2 ^ 31 - 1);
  max_dif = pos (2 ^ 31 - 2);
  max_correction = pos (2 ^ 30 - 2);
  min_correction = negsuc (2 ^ 30 - 2);
}

high-IsReady : IsReady high
unfolding ◌+ℤ◌ ◌-ℤ◌
high-IsReady = omega arith

high_over : pos (2 ^ 31 - 1) +ℤ pos (2 ^ 30 - 2) ≡ pos (2 ^ 31 - 1 + 2 ^ 30 - 2)
unfolding ◌+ℤ◌
high_over = refl

original_value-lost_example :
    (o : ℤ) × InRange high o
    × (correction high o (clamp high high.max_value) ≡ high.max_correction)
    × (original_value high
          (clamp high high.max_value)
          (correction high o (clamp high high.max_value))
        ≢ o)
original_value-lost_example =
    original_value-lost high high-IsReady (omega arith) (rw high_over (omega arith))
