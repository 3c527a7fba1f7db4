-- ===== src/Bitstream.antt =====
-- internal/bitstream/header.go: the header of a Draco stream and the check of its version.
pub mod Laws
pub mod Outcomes
mod Tests
use go_draco.Common.{
  slices_equal, ℕ, ◌+◌, ◌<◌, List, [], ◌∷◌, length, ltb, leb, ◌==◌, if◌then◌else◌, Bool, true,
  false, not, ◌&&◌, ◌||◌, M, Result, ok, err, ◌>>=◌, ◌>>◌, pure, fail, invalid_magic,
  unsupported_point_cloud_version, unsupported_mesh_version, unknown_encoder_type,
}
use go_draco.Common.Int.{ℤ}
use go_draco.Core.Reader.{Reader, read_bytes_view, read_uint8, read_uint16}
use go_draco.Core.Writer.{Writer, write_bytes, write_uint8, write_uint16}

-- "DRACO"
abbrev pub magic : List ℕ
magic = b'D' ∷ b'R' ∷ b'A' ∷ b'C' ∷ b'O' ∷ []

abbrev pub point_cloud_version_major : ℕ
point_cloud_version_major = 2

abbrev pub point_cloud_version_minor : ℕ
point_cloud_version_minor = 3

abbrev pub mesh_version_major : ℕ
mesh_version_major = 2

abbrev pub mesh_version_minor : ℕ
mesh_version_minor = 2

abbrev pub geometry_type_point_cloud : ℕ
geometry_type_point_cloud = 0

abbrev pub geometry_type_mesh : ℕ
geometry_type_mesh = 1

pub record Header : Type 0 where
  pub version_major : ℕ
  pub version_minor : ℕ
  pub encoder_type : ℕ
  pub encoder_method : ℕ
  pub flags : ℕ

-- What follows the magic.
unfoldable pub decode_header_fields : M Reader Header
decode_header_fields = do
  major ← read_uint8
  minor ← read_uint8
  encoder ← read_uint8
  method ← read_uint8
  flags ← read_uint16
  pure (record {
    version_major = major;
    version_minor = minor;
    encoder_type = encoder;
    encoder_method = method;
    flags = flags;
  })

unfoldable pub decode_header : M Reader Header
decode_header = do
  found ← read_bytes_view (ℤ.pos (length magic))
  if not (slices_equal found magic) then fail invalid_magic else decode_header_fields

unfoldable pub encode_header : Header → M Writer (Unit {0})
encode_header h = do
  write_bytes magic
  write_uint8 h.version_major
  write_uint8 h.version_minor
  write_uint8 h.encoder_type
  write_uint8 h.encoder_method
  write_uint16 h.flags

-- One case of the switch: an old major version passes, the current one up to its minor version.
abbrev validate_case : ℕ → ℕ → Result (Unit {0}) → Header → Result (Unit {0})
validate_case major minor unsupported h =
    if leb 1 h.version_major && ltb h.version_major major
    then ok tt
    else if not (h.version_major == major) || ltb minor h.version_minor
    then unsupported
    else ok tt

unfoldable pub validate_version : Header → Result (Unit {0})
validate_version h =
    if h.encoder_type == geometry_type_point_cloud
    then validate_case point_cloud_version_major point_cloud_version_minor
        (err unsupported_point_cloud_version) h
    else if h.encoder_type == geometry_type_mesh
    then validate_case mesh_version_major mesh_version_minor (err unsupported_mesh_version) h
    else err unknown_encoder_type
