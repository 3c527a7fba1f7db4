-- ===== src/Metadata/Codec/RoundTrip.antt =====
-- EncodeGeometryMetadata against DecodeGeometryMetadata.
use go_draco.Common.{
  ℕ, ◌*◌, ◌^◌, ◌≤◌, ◌<◌, ◌≡◌, refl, ap, List, [], ◌∷◌, ◌++◌, some, length, All, arith,
  if◌then◌else◌, Result, ok, err, ◌>>◌, pure, duplicate_attribute_metadata,
}
use go_draco.Core.Codec.{Writes-nil, Writes-then, Reads-bind, Reads-map, Reads-pure, RoundTrip}
use go_draco.Core.Varint.{decode_var_uint32}
use go_draco.Core.Varint.Laws.{decode-encode_var_uint32}
use go_draco.Metadata.{validate}
use go_draco.Metadata.Entries.{guarded, both_ok}
use go_draco.Metadata.Geometry.{
  AttributeMetadata, GeometryMetadata, contains_id, validate_attributes, validate_geometry,
}
use go_draco.Metadata.Codec.{
  lift, guard_uint32_len, guarded_slice_len, decode_element, encode_attributes, decode_attributes,
  encode_geometry_metadata, decode_geometry_metadata,
}
use go_draco.Metadata.Codec.EntryTrip.{passed-Writes}
use go_draco.Metadata.Codec.ElementTrip.{
  passed-Reads, guard-word, slice_allowed, IsStorable, decode-encode_element,
}

-- The unique id is a word, and the element can be stored.
abbrev pub IsStorableAttribute : AttributeMetadata → Type 0
IsStorableAttribute a = (a.attribute_unique_id < 2 ^ 32) × IsStorable 257 a.content

attributes-RoundTrip :
    (seen : List ℕ) (attributes : List AttributeMetadata)
    → validate_attributes seen attributes ≡ ok tt
    → All IsStorableAttribute attributes
    → RoundTrip
        (encode_attributes attributes)
        (decode_attributes (length attributes) seen)
        attributes
unfolding encode_attributes decode_attributes validate_attributes
attributes-RoundTrip seen [] valid stored = ([], Writes-nil, Reads-pure [])
attributes-RoundTrip seen (a ∷ later) valid ((word, store), stored) =
    let (inner, guard) = both_ok (validate a.content) _ valid in
    let (new, rest) =
      guarded (contains_id a.attribute_unique_id seen) duplicate_attribute_metadata _ guard in
    let (i, iw, ir) = decode-encode_var_uint32 a.attribute_unique_id word in
    let (b, bw, br) = decode-encode_element 257 a.content inner store in
    let (c, cw, cr) = attributes-RoundTrip (a.attribute_unique_id ∷ seen) later rest stored in
    (
      i ++ (b ++ c),
      Writes-then i (b ++ c) iw (Writes-then b c bw cw),
      Reads-bind i (b ++ c) decode_var_uint32 _ a.attribute_unique_id (a ∷ later) ir (
          passed-Reads (b ++ c)
            (if contains_id a.attribute_unique_id seen
              then err duplicate_attribute_metadata
              else ok tt)
            _ tt (a ∷ later) (rw new refl)
            (Reads-bind b c (decode_element 257) _ a.content (a ∷ later) br (
              Reads-map c (decode_attributes (length later) (a.attribute_unique_id ∷ seen)) _ later
                (a ∷ later) cr (λ s. refl)))),
    )

opened :
    (g : GeometryMetadata)
    → validate_geometry g ≡ ok tt
    → (validate g.root ≡ ok tt) × (validate_attributes [] g.attributes ≡ ok tt)
unfolding validate_geometry
opened g valid = both_ok (validate g.root) (validate_attributes [] g.attributes) valid

-- Let Validate accept a geometry's metadata, with at most 2^29 / 56 attributes whose ids are below 2^32, and let
-- every element be nested at most 256 deep, with values shorter than 2^32 and no more entries and
-- children than the decoder allocates. Then EncodeGeometryMetadata succeeds, and
-- DecodeGeometryMetadata returns the same metadata from exactly the bytes that were written.
pub decode-encode_geometry_metadata :
    (g : GeometryMetadata)
    → validate_geometry g ≡ ok tt
    → length g.attributes * 56 ≤ 2 ^ 29
    → All IsStorableAttribute g.attributes
    → IsStorable 257 g.root
    → RoundTrip (encode_geometry_metadata (some g)) decode_geometry_metadata g
unfolding encode_geometry_metadata decode_geometry_metadata
decode-encode_geometry_metadata g valid few stored store =
    let (root_valid, rest) = opened g valid in
    let (n, nw, nr) = decode-encode_var_uint32 (length g.attributes) (omega (arith, few)) in
    let (b, bw, br) = attributes-RoundTrip [] g.attributes rest stored in
    let (c, cw, cr) = decode-encode_element 257 g.root root_valid store in
    (
      n ++ (b ++ c),
      passed-Writes (n ++ (b ++ c)) (validate_geometry g) _ valid (
          passed-Writes (n ++ (b ++ c)) (guard_uint32_len (length g.attributes)) _
            (guard-word (length g.attributes) (omega (arith, few)))
            (Writes-then n (b ++ c) nw (Writes-then b c bw cw))),
      Reads-bind n (b ++ c) decode_var_uint32 _ (length g.attributes) g nr (
          passed-Reads (b ++ c) (guarded_slice_len (length g.attributes) 56) _ (length g.attributes)
            g (slice_allowed (length g.attributes) 56 few)
            (Reads-bind b c (decode_attributes (length g.attributes) []) _ g.attributes g br (
              Reads-map c (decode_element 257) _ g.root g cr
                (λ s. ap (λ (r : Result (Unit {0})). (lift r >> pure g) s) valid)))),
    )
