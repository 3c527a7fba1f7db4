-- ===== src/Metadata/Codec.antt =====
-- metadata/metadata.go: EncodeGeometryMetadata and DecodeGeometryMetadata. The context of the decoder is
-- one that is never cancelled. An element is decoded on the levels of nesting that are left.
pub mod EntryTrip
pub mod ElementTrip
pub mod RoundTrip
use go_draco.Common.{
  ℕ, zero, suc, ◌+◌, ◌-◌, ◌*◌, ◌/◌, ◌%◌, ◌^◌, ◌≤◌, ◌<◌, ◌≡◌, ◌≢◌, ◌↔◌, ◌⊎◌, refl, sym, ap, ◌∙◌, inl,
  inr, Bool, true, false, not, ◌&&◌, ◌||◌, Bool-cases, Option-cases, List, [], ◌∷◌, ◌++◌,
  append-nil, append_assoc, Option, none, some, length, All, get_or, set, take, drop, replicate,
  length-append, length-set, length-drop, take-append, drop-append, get_or-drop, drop-drop,
  get_or-append, get_or-append_end, arith, ltb, leb, ◌==◌, if◌then◌else◌, ltb→lt, ltb→ge, lt→ltb,
  ge→ltb, leb→le, le→leb, lt→leb_false, ==_iff, bit_and, bit_or, M, Error, Result, ok, err, ◌>>=◌,
  ◌>>◌, pure, fail, bind_ok, bind_err, on_left, on_right, slices_equal, slices_equal→eq,
  get_or-append_at, leb→gt, none≢some, some_inv, length-take, length-replicate, ne→==_false, eq→==,
  bind-inv, All-append, metadata_key_length, metadata_empty_value, duplicate_metadata_key,
  metadata_length, metadata_depth, metadata_allocation, metadata_exceeds_buffer,
  duplicate_attribute_metadata,
}
use go_draco.Common.Int.{ℤ}
use go_draco.Core.Reader.{Reader, remaining, read_uint8, read_bytes}
use go_draco.Core.Writer.{Writer, write_uint8, write_bytes}
use go_draco.Core.Varint.{encode_var_uint32, decode_var_uint32}
use go_draco.Metadata.{Entry, Element, element, Children, no_children, child, contains, validate}
use go_draco.Metadata.Geometry.{AttributeMetadata, GeometryMetadata, contains_id, validate_geometry}

abbrev pub lift : {S A : Type 0} → Result A → M S A
lift r s = (r, s)

unfoldable pub guard_uint32_len : ℕ → Result (Unit {0})
guard_uint32_len n = if ltb (2 ^ 32 - 1) n then err metadata_length else ok tt

unfoldable pub guard_uint8_len : ℕ → Result (Unit {0})
guard_uint8_len n = if ltb 255 n then err metadata_key_length else ok tt

-- The guards on lengths and the calls on the writer.
unfoldable pub encode_key_value : Entry → M Writer (Unit {0})
encode_key_value e = do
  lift (guard_uint8_len (length e.key))
  lift (guard_uint32_len (length e.value))
  write_uint8 (length e.key)
  write_bytes e.key
  encode_var_uint32 (length e.value)
  write_bytes e.value

unfoldable pub encode_entry : Entry → M Writer (Unit {0})
encode_entry e = if length e.value == 0 then fail metadata_empty_value else encode_key_value e

unfoldable pub encode_entries : List Entry → M Writer (Unit {0})
encode_entries [] = pure tt
encode_entries (e ∷ es) = encode_entry e >> encode_entries es

unfoldable pub count_children : Children → ℕ
count_children no_children = 0
count_children (child k e cs) = suc (count_children cs)

unfoldable mutual
  pub encode_element : Element → M Writer (Unit {0})
  encode_element (element es cs) = do
    lift (guard_uint32_len (length es))
    encode_var_uint32 (length es)
    encode_entries es
    lift (guard_uint32_len (count_children cs))
    encode_var_uint32 (count_children cs)
    encode_children cs

  pub encode_children : Children → M Writer (Unit {0})
  encode_children no_children = pure tt
  encode_children (child k e cs) = do
    lift (guard_uint8_len (length k))
    write_uint8 (length k)
    write_bytes k
    encode_element e
    encode_children cs

unfoldable pub encode_attributes : List AttributeMetadata → M Writer (Unit {0})
encode_attributes [] = pure tt
encode_attributes (a ∷ later) = do
  encode_var_uint32 a.attribute_unique_id
  encode_element a.content
  encode_attributes later

unfoldable pub encode_geometry_metadata : Option GeometryMetadata → M Writer (Unit {0})
encode_geometry_metadata none = pure tt
encode_geometry_metadata (some g) = do
  lift (validate_geometry g)
  lift (guard_uint32_len (length g.attributes))
  encode_var_uint32 (length g.attributes)
  encode_attributes g.attributes
  encode_element g.root

-- A slice of `count` values of `size` bytes each may be made. A product below 2^63 fits an int.
unfoldable pub guarded_slice_len : ℕ → ℕ → Result ℕ
guarded_slice_len count size =
    if ltb (2 ^ 29) (count * size) then err metadata_allocation else ok count

-- The sizes of Entry, NamedElement and AttributeMetadata on a 64-bit machine.
abbrev entry_size : ℕ
entry_size = 40

abbrev named_element_size : ℕ
named_element_size = 64

abbrev attribute_metadata_size : ℕ
attribute_metadata_size = 56

-- The checks on an entry before its value is read.
unfoldable pub check_entry : List (List ℕ) → List ℕ → ℕ → ℕ → Result (Unit {0})
check_entry seen key value_len left =
    if value_len == 0
    then err metadata_empty_value
    else if ltb left value_len
    then err metadata_exceeds_buffer
    else if contains key seen
    then err duplicate_metadata_key
    else ok tt

unfoldable pub decode_entry : List (List ℕ) → M Reader Entry
decode_entry seen = do
  key_len ← read_uint8
  key ← read_bytes (ℤ.pos key_len)
  value_len ← decode_var_uint32
  left ← λ r. (ok (remaining r), r)
  lift (check_entry seen key value_len left)
  value ← read_bytes (ℤ.pos value_len)
  pure (record { key = key; value = value })

unfoldable pub decode_entries : ℕ → List (List ℕ) → M Reader (List Entry)
decode_entries zero seen = pure []
decode_entries (suc n) seen = do
  e ← decode_entry seen
  es ← decode_entries n (e.key ∷ seen)
  pure (e ∷ es)

-- The loop over the children, on the decoder of one child.
unfoldable pub decode_children : M Reader Element → ℕ → List (List ℕ) → M Reader Children
decode_children one zero seen = pure no_children
decode_children one (suc n) seen = do
  key_len ← read_uint8
  key ← read_bytes (ℤ.pos key_len)
  lift (if contains key seen then err duplicate_metadata_key else ok tt)
  e ← one
  cs ← decode_children one n (key ∷ seen)
  pure (child key e cs)

unfoldable pub decode_element : ℕ → M Reader Element
decode_element zero = fail metadata_depth
decode_element (suc levels) = do
  num_entries ← decode_var_uint32
  lift (guarded_slice_len num_entries entry_size)
  es ← decode_entries num_entries []
  num_sub ← decode_var_uint32
  lift (guarded_slice_len num_sub named_element_size)
  left ← λ r. (ok (remaining r), r)
  lift (if ltb left num_sub then err metadata_exceeds_buffer else ok tt)
  cs ← decode_children (decode_element levels) num_sub []
  pure (element es cs)

-- A depth of 0 to 256 is decoded.
abbrev max_levels : ℕ
max_levels = 257

unfoldable pub decode_attributes : ℕ → List ℕ → M Reader (List AttributeMetadata)
decode_attributes zero seen = pure []
decode_attributes (suc n) seen = do
  id ← decode_var_uint32
  lift (if contains_id id seen then err duplicate_attribute_metadata else ok tt)
  e ← decode_element max_levels
  later ← decode_attributes n (id ∷ seen)
  pure (record { attribute_unique_id = id; content = e } ∷ later)

unfoldable pub decode_geometry_metadata : M Reader GeometryMetadata
decode_geometry_metadata = do
  num_attributes ← decode_var_uint32
  lift (guarded_slice_len num_attributes attribute_metadata_size)
  attributes ← decode_attributes num_attributes []
  root ← decode_element max_levels
  let g : GeometryMetadata = record { attributes = attributes; root = root }
  lift (validate_geometry g)
  pure g
