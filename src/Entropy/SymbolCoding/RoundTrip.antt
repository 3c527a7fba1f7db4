-- ===== src/Entropy/SymbolCoding/RoundTrip.antt =====
-- DecodeSymbols on what EncodeSymbols writes.
use native.Mathlib.Nat.{pow-le-pow_right}
use go_draco.Entropy.SymbolCoding.Counts.{positive_len_bounds, max_of-lt, All-weaken, max_of-bounds}
use mathlib.Core.Path.{subst}
use go_draco.Core.Reader.Laws.{read_uint8-Reads}
use go_draco.Entropy.SymbolCoding.Raw.{raw-trip, guard-passes}
use go_draco.Core.Writer.Laws.{write_uint8-Writes}
use go_draco.Entropy.SymbolCoding.Scratch.{Yields, Yields-bind, Yields-Reads}
use go_draco.Core.Codec.{Writes, Writes-then, Writes-nil}
use go_draco.Entropy.SymbolCoding.Tagged.{group_lengths-Groups, tagged-trip}
use go_draco.Entropy.SymbolCoding.Groups.{Groups}
use go_draco.Entropy.SymbolCoding.Table.{Refuses, Refuses-then}
use go_draco.Entropy.Symbols.{
  State, decode_tagged_symbols, decode_raw_symbols, decode_symbols, guard_symbol_output_allocation,
}
use go_draco.Core.Writer.{Writer, write_uint8}
use go_draco.Entropy.SymbolEncoding.{
  positive_components, bit_lengths_of, run_method, choose_method, is_auto, encode_symbols,
  positive_len, max_of, EncodeOptions, options_or_default, approximate_tagged_scheme_bits,
  approximate_raw_scheme_bits,
}
use go_draco.Core.Reader.{read_uint8}
use go_draco.Entropy.Probabilities.Frequencies.{IsRounding}
use go_draco.Entropy.Probabilities.{FloatOps}
use go_draco.Common.Int.{ℤ, negsuc, to_uint8, pos, ltb_ℤ}
use go_draco.Common.{
  ℕ, zero, suc, ◌+◌, ◌%◌, ◌^◌, ◌≤◌, ◌<◌, ◌≡◌, ◌⊎◌, refl, sym, inl, inr, Bool, true, false, ◌||◌,
  Bool-cases, List, [], ◌∷◌, Option, length, All, arith, ltb, ◌==◌, if◌then◌else◌, ltb→ge, ==_iff,
  M, ok, ◌>>=◌, ◌>>◌, pure, fail, on_left, invalid_rans_normalization, unsupported_symbol_scheme,
}

-- The coding method can write the symbols: automatic, tagged, or raw with 18 bits at most.
abbrev pub Accepts : ℤ → List ℕ → Type 0
Accepts (negsuc zero) ss = Unit {0}
Accepts (negsuc (suc n)) ss = ⊥
Accepts (pos zero) ss = Unit {0}
Accepts (pos (suc zero)) ss = All (λ v. v < 2 ^ 18) ss
Accepts (pos (suc (suc n))) ss = ⊥

-- A method that is not automatic.
abbrev Chosen : ℤ → List ℕ → Type 0
Chosen (negsuc n) ss = ⊥
Chosen (pos n) ss = Accepts (pos n) ss

module _ (ops : FloatOps) (rounding : IsRounding ops) (ss : List ℕ) (components : ℤ)
    (transient : Bool) (few : length ss ≤ 2 ^ 27) (wide : All (λ v. v < 2 ^ 32) ss)
    (divides : length ss % positive_components components ≡ 0) where
  abbrev c : ℕ
  c = positive_components components

  some_c : (z : ℤ) → 0 < positive_components z
  some_c (negsuc n) = omega arith
  some_c (pos zero) = omega arith
  some_c (pos (suc n)) = omega arith

  -- What both schemes give.
  abbrev Trip : M Writer (Unit {0}) → M State (List ℕ) → Type 0
  Trip enc dec =
      Refuses invalid_rans_normalization enc
      ⊎ ((bs : List ℕ) × Writes bs enc × Yields bs dec (λ a. a ≡ ss))

  groups : Groups c ss (bit_lengths_of c ss)
  unfolding bit_lengths_of
  groups = group_lengths-Groups (length ss) c ss (some_c components) (omega arith) divides wide

  -- The scheme's byte and the symbols under it.
  abbrev decode_scheme : ℕ → M State (List ℕ)
  decode_scheme scheme =
      if scheme == 0
      then decode_tagged_symbols (length ss) c false transient
      else if scheme == 1
      then decode_raw_symbols (length ss) false transient
      else fail unsupported_symbol_scheme

  with_scheme :
      (b : ℕ) (enc : M Writer (Unit {0}))
      → Trip enc (decode_scheme b)
      → Trip (write_uint8 b >> enc) (on_left read_uint8 >>= decode_scheme)
  with_scheme b enc (inl refuses) =
      inl (Refuses-then (b ∷ []) _ (write_uint8 b) enc (write_uint8-Writes b) refuses)
  with_scheme b enc (inr (bs, writes, yields)) = inr (
    b ∷ bs,
    Writes-then (b ∷ []) bs (write_uint8-Writes b) writes,
    Yields-bind (b ∷ []) bs (on_left read_uint8) decode_scheme (λ x. x ≡ b) (λ a. a ≡ ss)
        (Yields-Reads (b ∷ []) read_uint8 b (read_uint8-Reads b))
        (λ x same. subst (λ y. Yields bs (decode_scheme y) (λ a. a ≡ ss)) (sym same) yields),
  )

  Chosen-Trip :
      (level m : ℤ)
      → 0 < length ss
      → Chosen m ss
      → Trip
          (write_uint8 (to_uint8 m) >> run_method ops ss c (bit_lengths_of c ss) level m)
          (on_left read_uint8 >>= decode_scheme)
  unfolding run_method
  Chosen-Trip level (negsuc n) p h = absurd h
  Chosen-Trip level (pos zero) p h = with_scheme 0 _ (
      tagged-trip ops rounding c ss (bit_lengths_of c ss) transient (some_c components) p few
        groups)
  Chosen-Trip level (pos (suc zero)) p h =
      with_scheme 1 _ (raw-trip ops rounding ss _ level transient p few h)
  Chosen-Trip level (pos (suc (suc n))) p h = absurd h

  -- The automatic choice is raw only if the symbols are not too wide.
  choose_method-Chosen : Chosen (choose_method ops ss c (bit_lengths_of c ss)) ss
  unfolding choose_method
  choose_method-Chosen =
      let tagged = approximate_tagged_scheme_bits ops (bit_lengths_of c ss) c in
      let raw = approximate_raw_scheme_bits ops ss (max_of ss) in
      by_test (ltb 18 (positive_len (max_of ss)) || ltb_ℤ tagged raw) (λ e. narrow (or_false _ _ e))
    where
      by_test :
          (b : Bool)
          → (b ≡ false → All (λ v. v < 2 ^ 18) ss)
          → Chosen (if b then pos 0 else pos 1) ss
      by_test true h = tt
      by_test false h = h refl

      or_false : (a b : Bool) → (a || b) ≡ false → a ≡ false
      or_false true b e = e
      or_false false b e = refl

      narrow : ltb 18 (positive_len (max_of ss)) ≡ false → All (λ v. v < 2 ^ 18) ss
      narrow e =
          let (holds, some_bit, few_bits) =
            positive_len_bounds (max_of ss) (max_of-lt ss (2 ^ 32) (omega arith) wide) in
          let power =
            pow-le-pow_right {n = 2} (omega arith) {i = positive_len (max_of ss)} {j = 18}
              (ltb→ge 18 (positive_len (max_of ss)) e) in
          All-weaken (λ v h. omega (arith, h, holds, power)) ss (max_of-bounds ss)

  resolved :
      (level m : ℤ)
      → 0 < length ss
      → Accepts m ss
      → let chosen = if is_auto m then choose_method ops ss c (bit_lengths_of c ss) else m in
        Trip
          (write_uint8 (to_uint8 chosen) >> run_method ops ss c (bit_lengths_of c ss) level chosen)
          (on_left read_uint8 >>= decode_scheme)
  resolved level (negsuc zero) p h =
      Chosen-Trip level (choose_method ops ss c (bit_lengths_of c ss)) p choose_method-Chosen
  resolved level (negsuc (suc n)) p h = absurd h
  resolved level (pos n) p h = Chosen-Trip level (pos n) p h

  guarded :
      (enc : M Writer (Unit {0})) (dec : M State (List ℕ))
      → Trip enc dec
      → Trip enc (guard_symbol_output_allocation (length ss) >> dec)
  guarded enc dec t = subst (Trip enc) (sym (guard-passes (length ss) dec few)) t

  -- Let the symbols be at most 2^27 numbers of 32 bits, a multiple of the components, let float64
  -- arithmetic round as it should, and let the method be automatic, tagged, or raw with symbols below
  -- 2^18. EncodeSymbols ends. Either it refuses the normalisation of the probabilities, or it appends
  -- bytes from which DecodeSymbols returns the symbols, whatever follows them and whatever the
  -- decoders of the scratch have decoded before; it stops after these bytes, and the decoders of the
  -- scratch are as ready as before.
  pub decode-encode_symbols :
      (options : Option EncodeOptions)
      → Accepts (options_or_default options).coding_method ss
      → Refuses invalid_rans_normalization (encode_symbols ops ss components options)
        ⊎ ((bs : List ℕ) × Writes bs (encode_symbols ops ss components options)
            × Yields bs (decode_symbols (length ss) c false transient) (λ a. a ≡ ss))
  unfolding encode_symbols decode_symbols
  decode-encode_symbols options h = elim (Bool-cases (length ss == 0)) [
    | inl z ↦ rw z (inr ([], Writes-nil, nothing-Yields ((==_iff (length ss) 0).0 z)))
    | inr some_symbols ↦
        let positive : 0 < length ss = ground arith in
        rw (some_symbols, divides)
          (guarded _ (on_left read_uint8 >>= decode_scheme) (
            resolved (options_or_default options).compression_level
              (options_or_default options).coding_method positive h))
  ]
    where
      empty : (xs : List ℕ) → length xs ≡ 0 → [] ≡ xs
      empty [] e = refl
      empty (x ∷ xs) e = absurd (omega (arith, e))

      same : (n : ℕ) → n ≡ n + 0
      same n = omega arith

      nothing-Yields : length ss ≡ 0 → Yields [] (pure []) (λ a. a ≡ ss)
      nothing-Yields z r s rest at sound =
          ([], s, (λ i. (ok [], (record r { pos = same r.pos i }, s))), empty ss z, sound)
