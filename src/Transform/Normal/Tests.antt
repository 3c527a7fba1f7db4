-- ===== src/Transform/Normal/Tests.antt =====
-- A square of seven values a side, and the theorems on it.
use go_draco.Transform.Normal.Canonical.{
  IsCanonicalPoint, canonicalize_octahedral_coords-IsCanonicalPoint,
}
use go_draco.Transform.Normal.{compute_original_value, rotate, rotation_count, is_in_bottom_left}
use go_draco.Transform.Normal.Laws.{IsCanonical, compute_original_value-correction}
use go_draco.Transform.Octahedron.{
  canonicalize_octahedral_coords, zero_octahedron, len_bits, invert_diamond, invert_from,
  is_in_diamond, make_positive,
}
use go_draco.Transform.Normal.{compute_correction}
use go_draco.Transform.Octahedron.{set_max_quantized_value}
use go_draco.Transform.Octahedron.{set_quantization_bits}
use go_draco.Transform.Octahedron.{Octahedron}
use go_draco.Common.{◌≡◌, refl, arith, ok}
use go_draco.Common.Int.{pos, ◌-ℤ◌, ◌+ℤ◌}

-- Quantization to three bits.
abbrev square : Octahedron
square = record { quantization_bits = 3; max_quantized_value = 7; max_value = 6; center_value = 3 }

square_made : set_quantization_bits (pos 3) zero_octahedron ≡ (ok tt, square)
unfolding set_quantization_bits
square_made = refl

square_read : set_max_quantized_value (pos 7) zero_octahedron ≡ (ok tt, square)
unfolding set_max_quantized_value set_quantization_bits len_bits
square_read = refl

-- The correction from a prediction outside the diamond.
far_correction : compute_correction square (pos 1, pos 4) (pos 6, pos 5) ≡ (pos 3, pos 6)
unfolding compute_correction ◌-ℤ◌ ◌+ℤ◌ invert_diamond invert_from is_in_diamond rotate
    rotation_count is_in_bottom_left make_positive
far_correction = refl

-- A point on the left edge above the middle is folded down.
folded : canonicalize_octahedral_coords square (pos 0) (pos 5) ≡ (pos 0, pos 1)
unfolding canonicalize_octahedral_coords ◌-ℤ◌
folded = refl

inner-IsCanonical : IsCanonical 3 1 4
inner-IsCanonical = record {
  in_x = omega arith;
  in_y = omega arith;
  no_corner = omega arith;
  left = λ e. omega (arith, e);
  right = λ e. omega (arith, e);
  bottom = λ e. omega (arith, e);
  top = λ e. omega (arith, e);
}

compute_original_value-correction_example :
    compute_original_value square
      (pos 6, pos 5)
      (compute_correction square (pos 1, pos 4) (pos 6, pos 5))
    ≡ (pos 1, pos 4)
compute_original_value-correction_example =
    compute_original_value-correction square (omega arith) refl 1 4 6 5 inner-IsCanonical
      (omega arith) (omega arith)

canonicalize_octahedral_coords-IsCanonicalPoint_example :
    IsCanonicalPoint 3 (canonicalize_octahedral_coords square (pos 0) (pos 5))
canonicalize_octahedral_coords-IsCanonicalPoint_example =
    canonicalize_octahedral_coords-IsCanonicalPoint square (omega arith) refl 0 5 (omega arith)
      (omega arith) (omega arith)
