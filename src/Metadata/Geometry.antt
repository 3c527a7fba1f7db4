-- ===== src/Metadata/Geometry.antt =====
-- metadata/metadata.go: AttributeMetadata and GeometryMetadata.
use go_draco.Common.{
  ℕ, ◌≡◌, refl, ap, ◌∙◌, Bool, true, false, ◌&&◌, ◌||◌, List, [], ◌∷◌, ◌++◌, Option, none, some,
  arith, ◌==◌, if◌then◌else◌, M, Result, ok, err, slices_equal, duplicate_attribute_metadata,
  attribute_metadata_not_found,
}
use go_draco.Metadata.{Element, validate, equal, string, and_also}
use go_draco.Metadata.Entries.{both_ok, guarded}

pub record AttributeMetadata : Type 0 where
  pub attribute_unique_id : ℕ
  pub content : Element

pub record GeometryMetadata : Type 0 where
  pub attributes : List AttributeMetadata
  pub root : Element

unfoldable pub find_attribute : ℕ → List AttributeMetadata → Option AttributeMetadata
find_attribute id [] = none
find_attribute id (a ∷ later) =
    let rest = find_attribute id later in if a.attribute_unique_id == id then some a else rest

abbrev add_valid :
    AttributeMetadata → Result (Unit {0}) → Option AttributeMetadata → M GeometryMetadata (Unit {0})
add_valid a (err x) found g = (err x, g)
add_valid a (ok t) (some b) g = (err duplicate_attribute_metadata, g)
add_valid a (ok t) none g = (ok tt, record g { attributes = g.attributes ++ (a ∷ []) })

unfoldable pub add_attribute_metadata : AttributeMetadata → M GeometryMetadata (Unit {0})
add_attribute_metadata a g =
    add_valid a (validate a.content) (find_attribute a.attribute_unique_id g.attributes) g

unfoldable attribute_metadata_by_unique_id : ℕ → GeometryMetadata → Option AttributeMetadata
attribute_metadata_by_unique_id id g = find_attribute id g.attributes

unfoldable without_attribute : ℕ → List AttributeMetadata → Option (List AttributeMetadata)
without_attribute id [] = none
without_attribute id (a ∷ later) =
    let rest = without_attribute id later in
    if a.attribute_unique_id == id
    then some later
    else elim rest [ none ↦ none | some rest' ↦ some (a ∷ rest') ]

unfoldable delete_attribute_metadata_by_unique_id : ℕ → M GeometryMetadata (Unit {0})
delete_attribute_metadata_by_unique_id id g = elim (without_attribute id g.attributes) [
  | none ↦ (err attribute_metadata_not_found, g)
  | some later ↦ (ok tt, record g { attributes = later })
]

abbrev has_string : Option (List ℕ) → List ℕ → Bool
has_string none value = false
has_string (some s) value = slices_equal s value

unfoldable find_by_string : List ℕ → List ℕ → List AttributeMetadata → Option AttributeMetadata
find_by_string name value [] = none
find_by_string name value (a ∷ later) =
    let rest = find_by_string name value later in
    if has_string (string name a.content) value then some a else rest

unfoldable attribute_metadata_by_string_entry :
    List ℕ → List ℕ → GeometryMetadata → Option AttributeMetadata
attribute_metadata_by_string_entry name value g = find_by_string name value g.attributes

abbrev pub contains_id : ℕ → List ℕ → Bool
contains_id id [] = false
contains_id id (x ∷ xs) = x == id || contains_id id xs

unfoldable pub validate_attributes : List ℕ → List AttributeMetadata → Result (Unit {0})
validate_attributes seen [] = ok tt
validate_attributes seen (a ∷ later) =
    let rest = validate_attributes (a.attribute_unique_id ∷ seen) later in
    and_also (validate a.content)
      (if contains_id a.attribute_unique_id seen then err duplicate_attribute_metadata else rest)

unfoldable pub validate_geometry : GeometryMetadata → Result (Unit {0})
validate_geometry g = and_also (validate g.root) (validate_attributes [] g.attributes)

unfoldable equal_attributes : List AttributeMetadata → List AttributeMetadata → Bool
equal_attributes [] [] = true
equal_attributes [] (a ∷ later) = false
equal_attributes (a ∷ later) [] = false
equal_attributes (a ∷ later) (b ∷ bs) =
    a.attribute_unique_id == b.attribute_unique_id
    && equal a.content b.content
    && equal_attributes later bs

unfoldable equal_geometry : GeometryMetadata → GeometryMetadata → Bool
equal_geometry g h = equal g.root h.root && equal_attributes g.attributes h.attributes

-- A new attribute at the end.
validate_attributes-append :
    (a : AttributeMetadata)
    → validate a.content ≡ ok tt
    → (seen : List ℕ) (attributes : List AttributeMetadata)
    → contains_id a.attribute_unique_id seen ≡ false
    → find_attribute a.attribute_unique_id attributes ≡ none
    → validate_attributes seen attributes ≡ ok tt
    → validate_attributes seen (attributes ++ (a ∷ [])) ≡ ok tt
unfolding validate_attributes find_attribute
validate_attributes-append a valid seen [] new absent h = rw (valid, new) refl
validate_attributes-append a valid seen (b ∷ later) new absent h =
    let (inner, guard) = both_ok (validate b.content) _ h in
    let (fresh, rest) =
      guarded (contains_id b.attribute_unique_id seen) duplicate_attribute_metadata _ guard in
    let (apart, absent') = not_found (b.attribute_unique_id == a.attribute_unique_id) b _ absent in
    rw (inner, fresh)
      (validate_attributes-append a valid (b.attribute_unique_id ∷ seen) later
        (ground (arith, apart, new)) absent' rest)
  where
    not_found :
        (c : Bool) (x : AttributeMetadata) (o : Option AttributeMetadata)
        → (if c then some x else o) ≡ none
        → (c ≡ false) × (o ≡ none)
    not_found true x o e = cc
    not_found false x o e = (refl, e)

-- AddAttributeMetadata, whether it succeeds or fails, leaves metadata that Validate accepts if it
-- accepted the metadata before.
pub validate_geometry-add_attribute_metadata :
    (a : AttributeMetadata) (g : GeometryMetadata)
    → validate_geometry g ≡ ok tt
    → validate_geometry (add_attribute_metadata a g).1 ≡ ok tt
unfolding validate_geometry add_attribute_metadata
validate_geometry-add_attribute_metadata a g h =
    added (validate a.content) (find_attribute a.attribute_unique_id g.attributes) refl refl
  where
    added :
        (r : Result (Unit {0})) (found : Option AttributeMetadata)
        → validate a.content ≡ r
        → find_attribute a.attribute_unique_id g.attributes ≡ found
        → validate_geometry (add_valid a r found g).1 ≡ ok tt
    added (err x) found valid absent = h
    added (ok t) (some b) valid absent = h
    added (ok t) none valid absent =
        let (root, rest) = both_ok (validate g.root) (validate_attributes [] g.attributes) h in
        ap (λ r. and_also r (validate_attributes [] (g.attributes ++ (a ∷ [])))) root
        ∙ validate_attributes-append a valid [] g.attributes refl absent rest
