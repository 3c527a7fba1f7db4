-- ===== src/Common/State.antt =====
-- Go's `(value, error)` results, and calls that change an object: a state with errors.
-- A call that fails keeps the changes that it made before.
use mathlib.Core.Path.{◌≡◌, refl}

-- One constructor for each message of the modelled files.
pub data Error : Type 0 where
  unexpected_eof invalid_advance_size invalid_read_size : Error
  invalid_uint32_varint invalid_uint64_varint : Error
  invalid_magic unsupported_point_cloud_version unsupported_mesh_version unknown_encoder_type :
      Error
  invalid_rans_buffer invalid_rans_state_size invalid_rans_state_tag invalid_rans_state : Error
  rans_cumulative_probability rans_precision_sum rans_state_too_large : Error
  rans_bit_payload_size invalid_number_of_bits rans_probability_too_large : Error
  invalid_wrap_bounds invalid_wrap_range invalid_octahedron_bits invalid_max_quantized_value : Error
  invalid_vertex_count degenerate_face corner_out_of_range non_manifold_edge : Error
  direct_bit_payload_size direct_bit_payload_exceeds : Error
  rans_probability_range invalid_zero_run invalid_rans_payload_size index_out_of_range : Error
  empty_rans_alphabet invalid_rans_normalization rans_precision_total : Error
  probability_allocation symbol_allocation unsupported_symbol_scheme : Error
  invalid_tag_bit_length tagged_bits_exhausted tagged_bits_unwritable : Error
  symbol_count_not_divisible raw_symbol_too_wide : Error
  metadata_key_length metadata_empty_value duplicate_metadata_key : Error
  metadata_entry_not_found duplicate_metadata_child : Error
  duplicate_attribute_metadata attribute_metadata_not_found : Error
  metadata_length metadata_depth metadata_allocation metadata_exceeds_buffer : Error
  out_of_fuel : Error

pub data Result {ℓ} (A : Type ℓ) : Type ℓ where
  ok : A → Result A
  err : Error → Result A

-- A method of an object whose fields are `S`.
abbrev pub M : Type 0 → Type 0 → Type 0
M S A = S → Result A × S

abbrev and_then : {S A B : Type 0} → Result A → (A → M S B) → M S B
and_then (ok a) f s = f a s
and_then (err e) f s = (err e, s)

infixl 5 ◌>>=◌ ◌>>◌
abbrev pub ◌>>=◌ : {S A B : Type 0} → M S A → (A → M S B) → M S B
◌>>=◌ m f s = and_then (m s).0 f (m s).1

abbrev pub ◌>>◌ : {S A B : Type 0} → M S A → M S B → M S B
m >> k = m >>= λ _. k

abbrev pub pure : {S A : Type 0} → A → M S A
pure a s = (ok a, s)

abbrev pub fail : {S A : Type 0} → Error → M S A
fail e s = (err e, s)

-- The rule for a `do` block whose first call succeeds.
pub bind_ok :
    {S A B : Type 0} (m : M S A) (f : A → M S B) (s : S) {a : A} {t : S}
    → m s ≡ (ok a, t)
    → (m >>= f) s ≡ f a t
bind_ok m f s {a} {t} h = λ i. and_then (h i).0 f (h i).1

pub bind_err :
    {S A B : Type 0} (m : M S A) (f : A → M S B) (s : S) {e : Error} {t : S}
    → m s ≡ (err e, t)
    → (m >>= f) s ≡ (err e, t)
bind_err m f s {e} {t} h = λ i. and_then (h i).0 f (h i).1

-- A method of one of two objects, as a method of the pair.
abbrev pub on_left : {S T A : Type 0} → M S A → M (S × T) A
on_left m (s, t) = ((m s).0, ((m s).1, t))

abbrev pub on_right : {S T A : Type 0} → M T A → M (S × T) A
on_right m (s, t) = ((m t).0, (s, (m t).1))

and_then-inv :
    {S A B : Type 0} (r : Result A) (f : A → M S B) (s : S) {b : B} {u : S}
    → and_then r f s ≡ (ok b, u)
    → (a : A) × (r ≡ ok a) × (f a s ≡ (ok b, u))
and_then-inv (ok a) f s e = (a, refl, e)
and_then-inv (err x) f s e = cc

-- A chain that succeeds has passed its first call.
pub bind-inv :
    {S A B : Type 0} (m : M S A) (f : A → M S B) (s : S) {b : B} {u : S}
    → (m >>= f) s ≡ (ok b, u)
    → (a : A) × (t : S) × (m s ≡ (ok a, t)) × (f a t ≡ (ok b, u))
bind-inv m f s e =
    let (a, p, q) = and_then-inv (m s).0 f (m s).1 e in (a, (m s).1, (λ k. (p k, (m s).1)), q)
