-- ===== src/Metadata/Tests.antt =====
-- A small element, and the theorems on it.
use go_draco.Metadata.Geometry.{
  validate_geometry, find_attribute, validate_attributes, validate_geometry-add_attribute_metadata,
}
use go_draco.Metadata.Geometry.{add_attribute_metadata}
use go_draco.Metadata.Geometry.{GeometryMetadata}
use go_draco.Core.Codec.{RoundTrip}
use go_draco.Metadata.Codec.{encode_geometry_metadata, decode_geometry_metadata, count_children}
use go_draco.Metadata.Codec.ElementTrip.{IsStorable}
use go_draco.Metadata.Codec.RoundTrip.{decode-encode_geometry_metadata}
use go_draco.Common.{
  ◌≡◌, refl, [], ◌∷◌, none, some, arith, if◌then◌else◌, ok, err, slices_equal,
  metadata_entry_not_found, duplicate_attribute_metadata,
}
use go_draco.Common.Int.{negsuc}
use go_draco.Metadata.{
  Element, element, no_children, set_entry_value, set_int, int, remove_entry, validate, entry_index,
  string, entry, validate_entries,
}
use go_draco.Metadata.Entries.{int-set_int, validate-set_entry_value}

abbrev named : Element
named = element ((record { key = 97 ∷ []; value = 1 ∷ 2 ∷ [] }) ∷ []) no_children

a_string : string (97 ∷ []) named ≡ some (1 ∷ 2 ∷ [])
unfolding string entry entry_index
a_string = refl

not_an_int : int (97 ∷ []) named ≡ none
unfolding int entry entry_index
not_an_int = refl

removed : remove_entry (97 ∷ []) named ≡ (ok tt, element [] no_children)
unfolding remove_entry entry_index
removed = refl

absent : remove_entry (98 ∷ []) named ≡ (err metadata_entry_not_found, named)
unfolding remove_entry entry_index
absent = refl

int-set_int_example :
    (e' : Element) × (set_int (98 ∷ []) (negsuc 4) named ≡ (ok tt, e'))
    × (int (98 ∷ []) e'
        ≡ (if slices_equal (98 ∷ []) (98 ∷ []) then some (negsuc 4) else int (98 ∷ []) named))
int-set_int_example = int-set_int (98 ∷ []) (98 ∷ []) (negsuc 4) named (omega arith) (omega arith)

validate-set_entry_value_example : validate (set_entry_value (97 ∷ []) (7 ∷ []) named).1 ≡ ok tt
unfolding validate validate_entries
validate-set_entry_value_example = validate-set_entry_value (97 ∷ []) (7 ∷ []) named refl

-- One attribute with the unique id 4.
abbrev described : GeometryMetadata
described = record {
  attributes = record { attribute_unique_id = 4; content = named } ∷ [];
  root = named;
}

added_twice :
    (add_attribute_metadata (record { attribute_unique_id = 4; content = named }) described).0
    ≡ err duplicate_attribute_metadata
unfolding add_attribute_metadata validate validate_entries find_attribute
added_twice = refl

validate_geometry-add_attribute_metadata_example :
    validate_geometry
      (add_attribute_metadata (record { attribute_unique_id = 5; content = named }) described).1
    ≡ ok tt
unfolding validate_geometry validate validate_entries validate_attributes
validate_geometry-add_attribute_metadata_example =
    validate_geometry-add_attribute_metadata (record { attribute_unique_id = 5; content = named })
      described refl

decode-encode_geometry_metadata_example :
    RoundTrip (encode_geometry_metadata (some described)) decode_geometry_metadata described
unfolding validate_geometry validate validate_entries validate_attributes IsStorable count_children
decode-encode_geometry_metadata_example =
    decode-encode_geometry_metadata described refl (omega arith) ((omega arith, named_stored), tt)
      named_stored
  where
    named_stored : IsStorable 257 named
    named_stored = ((omega arith, tt), omega arith, omega arith, tt)
