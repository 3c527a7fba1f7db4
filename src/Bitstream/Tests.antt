-- ===== src/Bitstream/Tests.antt =====
-- Concrete headers, and the theorems at concrete inputs.
use go_draco.Common.{ℕ, ◌≡◌, ◌↔◌, ◌⊎◌, ◌≤◌, refl, [], ◌∷◌, ok, err, arith, unsupported_mesh_version}
use go_draco.Core.Codec.{RoundTrip}
use go_draco.Core.Reader.{Reader, remaining_bytes}
use go_draco.Bitstream.{Header, decode_header, encode_header, validate_version}
use go_draco.Bitstream.Outcomes.{Accepted, BadMagic, TooShort, decode_header-outcomes}
use go_draco.Bitstream.Laws.{decode-encode_header, validate_version_iff}

abbrev mesh_header : Header
mesh_header = record {
  version_major = 2;
  version_minor = 2;
  encoder_type = 1;
  encoder_method = 1;
  flags = 0x8000;
}

newer_mesh :
    validate_version (record mesh_header { version_minor = 3 }) ≡ err unsupported_mesh_version
unfolding validate_version
newer_mesh = refl

decode-encode_header_example : RoundTrip (encode_header mesh_header) decode_header mesh_header
decode-encode_header_example = decode-encode_header mesh_header (omega arith)

-- The first bytes of an image.
abbrev other_file : Reader
other_file = record { buf = 0x89 ∷ 0x50 ∷ 0x4e ∷ 0x47 ∷ 13 ∷ 10 ∷ []; pos = 0 }

decode_header-outcomes_example : Accepted other_file ⊎ BadMagic other_file ⊎ TooShort other_file
unfolding remaining_bytes
decode_header-outcomes_example =
    decode_header-outcomes other_file (omega arith)
      (omega arith, (omega arith, (omega arith, (omega arith, (omega arith, (omega arith, tt))))))

validate_version_iff_example : (validate_version mesh_header ≡ ok tt) ↔ (
    ((◌≡◌ {A = ℕ} 1 0) × ((◌≡◌ {A = ℕ} 2 1) ⊎ ((◌≡◌ {A = ℕ} 2 2) × (2 ≤ 3))))
    ⊎ ((◌≡◌ {A = ℕ} 1 1) × ((◌≡◌ {A = ℕ} 2 1) ⊎ ((◌≡◌ {A = ℕ} 2 2) × (2 ≤ 2)))))
validate_version_iff_example = validate_version_iff mesh_header
