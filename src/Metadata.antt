-- ===== src/Metadata.antt =====
-- metadata/metadata.go: Element. AttributeMetadata and GeometryMetadata are in Geometry. A key and a string are the
-- list of their bytes, and a float64 is its bit pattern. Values have no aliases, so Clone is the
-- identity; a method's nil receiver or argument, which it refuses first, has no counterpart.
pub mod Entries
pub mod Geometry
pub mod Codec
mod Tests
use go_draco.Common.{
  ℕ, zero, suc, ◌+◌, ◌-◌, ◌*◌, ◌/◌, ◌%◌, ◌^◌, ◌≤◌, ◌<◌, ◌≡◌, ◌≢◌, ◌↔◌, ◌⊎◌, refl, sym, ap, ◌∙◌, inl,
  inr, Bool, true, false, not, ◌&&◌, ◌||◌, Bool-cases, Option-cases, List, [], ◌∷◌, ◌++◌,
  append-nil, append_assoc, Option, none, some, length, All, get_or, set, take, drop, replicate,
  length-append, length-set, length-drop, take-append, drop-append, get_or-drop, drop-drop,
  get_or-append, get_or-append_end, arith, ltb, leb, ◌==◌, if◌then◌else◌, ltb→lt, ltb→ge, lt→ltb,
  ge→ltb, leb→le, le→leb, lt→leb_false, ==_iff, bit_and, bit_or, M, Error, Result, ok, err, ◌>>=◌,
  ◌>>◌, pure, fail, bind_ok, bind_err, on_left, on_right, slices_equal, slices_equal→eq,
  get_or-append_at, leb→gt, none≢some, some_inv, length-take, length-replicate, ne→==_false, eq→==,
  bind-inv, All-append, metadata_key_length, metadata_empty_value, duplicate_metadata_key,
  metadata_entry_not_found, duplicate_metadata_child, duplicate_attribute_metadata,
  attribute_metadata_not_found,
}
use go_draco.Common.Int.{ℤ, to_uint32, to_int32}
use go_draco.Core.Words.{le_bytes, little_endian}

pub record Entry : Type 0 where
  pub key : List ℕ
  pub value : List ℕ

mutual
  pub data Element : Type 0 where
    element : List Entry → Children → Element

  -- The slice of named elements.
  pub data Children : Type 0 where
    no_children : Children
    child : List ℕ → Element → Children → Children

abbrev pub entries : Element → List Entry
entries (element es cs) = es

abbrev sub_metadata : Element → Children
sub_metadata (element es cs) = cs

abbrev pub after_first : Option ℕ → Option ℕ
after_first none = none
after_first (some i) = some (suc i)

unfoldable pub entry_index : List ℕ → List Entry → Option ℕ
entry_index key [] = none
entry_index key (e ∷ es) =
    let rest = entry_index key es in if slices_equal e.key key then some 0 else after_first rest

abbrev nth_entry : List Entry → ℕ → Option Entry
nth_entry [] i = none
nth_entry (e ∷ es) zero = some e
nth_entry (e ∷ es) (suc i) = nth_entry es i

abbrev pub at_index : List Entry → Option ℕ → Option Entry
at_index es none = none
at_index es (some i) = nth_entry es i

unfoldable pub entry : List ℕ → List Entry → Option Entry
entry key es = at_index es (entry_index key es)

abbrev pub put_at : Option ℕ → Entry → List Entry → List Entry
put_at none e es = es ++ (e ∷ [])
put_at (some i) e es = set es i e

unfoldable pub set_entry_value : List ℕ → List ℕ → M Element (Unit {0})
set_entry_value key value (element es cs) =
    if ltb 255 (length key)
    then (err metadata_key_length, element es cs)
    else if length value == 0
    then (err metadata_empty_value, element es cs)
    else (ok tt, element (put_at (entry_index key es) (record { key = key; value = value }) es) cs)

unfoldable pub set_int : List ℕ → ℤ → M Element (Unit {0})
set_int key value = set_entry_value key (le_bytes 4 (to_uint32 value))

abbrev pub int_of : Option Entry → Option ℤ
int_of none = none
int_of (some e) = if length e.value == 4 then some (to_int32 (little_endian e.value)) else none

unfoldable pub int : List ℕ → Element → Option ℤ
int key e = int_of (entry key (entries e))

unfoldable int_bytes : List ℤ → List ℕ
int_bytes [] = []
int_bytes (v ∷ vs) = le_bytes 4 (to_uint32 v) ++ int_bytes vs

unfoldable set_int_array : List ℕ → List ℤ → M Element (Unit {0})
set_int_array key value = set_entry_value key (int_bytes value)

-- A loop over the words of `size` bytes of a value.
unfoldable pub words : ℕ → ℕ → List ℕ → List ℕ
words size zero bs = []
words size (suc n) bs = little_endian (take size bs) ∷ words size n (drop size bs)

unfoldable ints : List ℕ → List ℤ
ints [] = []
ints (w ∷ ws) = to_int32 w ∷ ints ws

abbrev words_of : ℕ → Option Entry → Option (List ℕ)
words_of size none = none
words_of size (some e) =
    if length e.value == 0 || not (length e.value % size == 0)
    then none
    else some (words size (length e.value / size) e.value)

unfoldable int_array : List ℕ → Element → Option (List ℤ)
int_array key e = elim (words_of 4 (entry key (entries e))) [
  | none ↦ none
  | some ws ↦ some (ints ws)
]

unfoldable set_float64 : List ℕ → ℕ → M Element (Unit {0})
set_float64 key value = set_entry_value key (le_bytes 8 value)

unfoldable float64_bytes : List ℕ → List ℕ
float64_bytes [] = []
float64_bytes (v ∷ vs) = le_bytes 8 v ++ float64_bytes vs

unfoldable set_float64_array : List ℕ → List ℕ → M Element (Unit {0})
set_float64_array key value = set_entry_value key (float64_bytes value)

abbrev float64_of : Option Entry → Option ℕ
float64_of none = none
float64_of (some e) = if length e.value == 8 then some (little_endian e.value) else none

unfoldable pub float64 : List ℕ → Element → Option ℕ
float64 key e = float64_of (entry key (entries e))

unfoldable float64_array : List ℕ → Element → Option (List ℕ)
float64_array key e = words_of 8 (entry key (entries e))

unfoldable set_string : List ℕ → List ℕ → M Element (Unit {0})
set_string = set_entry_value

abbrev bytes_of : Option Entry → Option (List ℕ)
bytes_of none = none
bytes_of (some e) = if length e.value == 0 then none else some e.value

-- String, and Binary.
unfoldable pub string : List ℕ → Element → Option (List ℕ)
string key e = bytes_of (entry key (entries e))

unfoldable pub remove_entry : List ℕ → M Element (Unit {0})
remove_entry key (element es cs) = elim (entry_index key es) [
  | none ↦ (err metadata_entry_not_found, element es cs)
  | some i ↦ (ok tt, element (take i es ++ drop (suc i) es) cs)
]

abbrev pub contains : List ℕ → List (List ℕ) → Bool
contains key [] = false
contains key (k ∷ ks) = slices_equal k key || contains key ks

-- The entries, after those with the keys `seen`.
unfoldable pub validate_entries : List (List ℕ) → List Entry → Result (Unit {0})
validate_entries seen [] = ok tt
validate_entries seen (e ∷ es) =
    let rest = validate_entries (e.key ∷ seen) es in
    if ltb 255 (length e.key)
    then err metadata_key_length
    else if length e.value == 0
    then err metadata_empty_value
    else if contains e.key seen
    then err duplicate_metadata_key
    else rest

abbrev pub and_also : Result (Unit {0}) → Result (Unit {0}) → Result (Unit {0})
and_also (ok t) r = r
and_also (err x) r = err x

unfoldable mutual
  pub validate : Element → Result (Unit {0})
  validate (element es cs) = and_also (validate_entries [] es) (validate_children [] cs)

  pub validate_children : List (List ℕ) → Children → Result (Unit {0})
  validate_children seen no_children = ok tt
  validate_children seen (child key e cs) =
      let inner = validate e in
      let rest = validate_children (key ∷ seen) cs in
      if ltb 255 (length key)
      then err metadata_key_length
      else if contains key seen
      then err duplicate_metadata_key
      else and_also inner rest

unfoldable find_child : List ℕ → Children → Option Element
find_child key no_children = none
find_child key (child k e cs) =
    let rest = find_child key cs in if slices_equal k key then some e else rest

unfoldable append_child : List ℕ → Element → Children → Children
append_child key e no_children = child key e no_children
append_child key e (child k c cs) = child k c (append_child key e cs)

abbrev set_valid_child :
    List ℕ → Element → Option Element → Result (Unit {0}) → M Element (Unit {0})
set_valid_child key c found (err x) (element es cs) = (err x, element es cs)
set_valid_child key c (some d) (ok t) (element es cs) =
    (err duplicate_metadata_child, element es cs)
set_valid_child key c none (ok t) (element es cs) = (ok tt, element es (append_child key c cs))

unfoldable set_child : List ℕ → Element → M Element (Unit {0})
set_child key c e =
    if ltb 255 (length key)
    then (err metadata_key_length, e)
    else set_valid_child key c (find_child key (sub_metadata e)) (validate c) e

unfoldable pub equal_entries : List Entry → List Entry → Bool
equal_entries [] [] = true
equal_entries [] (e ∷ es) = false
equal_entries (e ∷ es) [] = false
equal_entries (e ∷ es) (e' ∷ es') =
    slices_equal e.key e'.key && slices_equal e.value e'.value && equal_entries es es'

unfoldable mutual
  pub equal : Element → Element → Bool
  equal (element es cs) (element es' cs') = equal_entries es es' && equal_children cs cs'

  pub equal_children : Children → Children → Bool
  equal_children no_children no_children = true
  equal_children no_children (child k e cs) = false
  equal_children (child k e cs) no_children = false
  equal_children (child k e cs) (child k' e' cs') =
      slices_equal k k' && equal e e' && equal_children cs cs'
