-- ===== src/Bitstream/Laws.antt =====
-- The theorems on the header and its version.
use go_draco.Common.{ℕ, ◌≤◌, ◌<◌, ◌^◌, ◌≡◌, ◌↔◌, ◌⊎◌, refl, [], ◌∷◌, ok, ◌>>=◌, pure, arith}
use go_draco.Common.Int.{ℤ}
use go_draco.Core.Words.{le_bytes}
use go_draco.Core.Reader.{read_bytes_view, read_uint8, read_uint16}
use go_draco.Core.Reader.Laws.{read_bytes_view-Reads, read_uint8-Reads, read_uint16-Reads}
use go_draco.Core.Writer.{write_bytes, write_uint8, write_uint16}
use go_draco.Core.Writer.Laws.{write_bytes-Writes, write_uint8-Writes, write_uint16-Writes}
use go_draco.Core.Codec.{RoundTrip, RoundTrip-then, Reads-map}
use go_draco.Bitstream.{
  Header, magic, decode_header, decode_header_fields, encode_header, validate_version,
}

byte_trip : (v : ℕ) → RoundTrip (write_uint8 v) read_uint8 v
byte_trip v = (v ∷ [], write_uint8-Writes v, read_uint8-Reads v)

flags_trip :
    (v : ℕ) (h : Header)
    → v < 2 ^ 16
    → RoundTrip
        (write_uint16 v)
        (do flags ← read_uint16; pure (record h { flags = flags }))
        (record h { flags = v })
flags_trip v h p = (
  le_bytes 2 v,
  write_uint16-Writes v,
  Reads-map (le_bytes 2 v) read_uint16 _ v _ (read_uint16-Reads v p) (λ s. refl),
)

-- For a header with 16-bit flags, EncodeHeader succeeds and DecodeHeader returns the same header
-- from exactly the bytes that were written, whatever follows them.
pub decode-encode_header :
    (h : Header) → h.flags < 2 ^ 16 → RoundTrip (encode_header h) decode_header h
unfolding encode_header decode_header decode_header_fields
decode-encode_header h p =
    RoundTrip-then (write_bytes magic) _ (read_bytes_view (ℤ.pos 5)) _ magic h
      (magic, write_bytes-Writes magic, read_bytes_view-Reads magic)
      (RoundTrip-then (write_uint8 h.version_major) _ read_uint8 _ h.version_major h
        (byte_trip h.version_major)
        (RoundTrip-then (write_uint8 h.version_minor) _ read_uint8 _ h.version_minor h
          (byte_trip h.version_minor)
          (RoundTrip-then (write_uint8 h.encoder_type) _ read_uint8 _ h.encoder_type h
            (byte_trip h.encoder_type)
            (RoundTrip-then (write_uint8 h.encoder_method) _ read_uint8 _ h.encoder_method h
              (byte_trip h.encoder_method) (flags_trip h.flags h p)))))

-- ValidateVersion accepts a header exactly for a point cloud of version 1.x or 2.0 to 2.3, and for a mesh of
-- version 1.x or 2.0 to 2.2.
pub validate_version_iff :
    (h : Header)
    → (validate_version h ≡ ok tt) ↔ (
        ((h.encoder_type ≡ 0)
          × ((h.version_major ≡ 1) ⊎ ((h.version_major ≡ 2) × (h.version_minor ≤ 3))))
        ⊎ ((h.encoder_type ≡ 1)
            × ((h.version_major ≡ 1) ⊎ ((h.version_major ≡ 2) × (h.version_minor ≤ 2)))))
unfolding validate_version
validate_version_iff h = (λ e. ground arith, λ e. ground arith)
