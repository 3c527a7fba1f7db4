-- ===== src/Entropy/RansBit/Packing.antt =====
-- The bits that RansBitEncoder holds, and the run of the writer over them.
use native.Mathlib.Nat.{pow-suc}
use go_draco.Common.{
  ℕ, suc, ◌+◌, ◌*◌, ◌^◌, ◌≤◌, ◌<◌, ◌≡◌, refl, sym, ap, ◌∙◌, inl, inr, Bool, true, false, Bool-cases,
  List, [], ◌∷◌, ◌++◌, append-nil, append_assoc, Option, none, some, arith, ◌==◌, ==_iff, bit_or,
  Error,
}
use go_draco.Common.Bits.{bit_or_shifted}
use mathlib.Core.Path.{subst}
use go_draco.Entropy.RansBit.{
  RansBitEncoder, RansBitWriter, cleared, flush, encode_bit, count_bit, write_word, write_words,
}
use go_draco.Entropy.RansBit.Digits.{
  low_bits, words_bits, words_bits-snoc, low_bits-one, low_bits-zero, write_list, write_list-append,
  write_word-list, write_words-list,
}

-- The bits given to the encoder, the first one first.
unfoldable pub held : RansBitEncoder → List Bool
held e = words_bits e.bits ++ low_bits e.num_local_bits e.local_bits

-- The word that is being filled has room.
pub record IsOpen (e : RansBitEncoder) : Type 0 where
  pub room : e.num_local_bits < 32
  pub fits : e.local_bits < 2 ^ e.num_local_bits
  pub no_error : e.error ≡ none

-- A word that has just been given a bit.
pub record IsFilled (e : RansBitEncoder) : Type 0 where
  pub room : e.num_local_bits ≤ 32
  pub fits : e.local_bits < 2 ^ e.num_local_bits
  pub no_error : e.error ≡ none

pub flush-held : (e : RansBitEncoder) → held (flush e) ≡ held e
unfolding flush held low_bits
flush-held e = elim (Bool-cases (e.num_local_bits == 32)) [
  | inl full ↦ rw full (
      append-nil (words_bits (e.bits ++ (e.local_bits ∷ [])))
      ∙ words_bits-snoc e.bits e.local_bits
      ∙ ap (λ n. words_bits e.bits ++ low_bits n e.local_bits)
          (sym ((==_iff e.num_local_bits 32).0 full)))
  | inr room ↦ rw room refl
]

pub flush-IsOpen : (e : RansBitEncoder) → IsFilled e → IsOpen (flush e)
unfolding flush
flush-IsOpen e f = elim (Bool-cases (e.num_local_bits == 32)) [
  | inl full ↦ rw full (record { room = omega arith; fits = omega arith; no_error = f.no_error })
  | inr part ↦
      rw part (record { room = ground (arith, f.room, part); fits = f.fits; no_error = f.no_error })
]

after : (n : ℕ) → n + 1 ≡ suc n
after n = omega arith

double : (n : ℕ) → 2 ^ (n + 1) ≡ 2 ^ n * 2
double n = ap (λ k. 2 ^ k) (after n) ∙ pow-suc 2 n

count_bit-held :
    (bit : Bool) (e : RansBitEncoder) → IsOpen e → held (count_bit bit e) ≡ held e ++ (bit ∷ [])
unfolding held
count_bit-held true e o =
    rw (after e.num_local_bits, low_bits-one e.num_local_bits e.local_bits o.fits)
      (sym (append_assoc (words_bits e.bits) (low_bits e.num_local_bits e.local_bits) (true ∷ [])))
count_bit-held false e o =
    rw (after e.num_local_bits, low_bits-zero e.num_local_bits e.local_bits o.fits)
      (sym (append_assoc (words_bits e.bits) (low_bits e.num_local_bits e.local_bits) (false ∷ [])))

count_bit-IsFilled : (bit : Bool) (e : RansBitEncoder) → IsOpen e → IsFilled (count_bit bit e)
count_bit-IsFilled true e o = record {
  room = omega (arith, o.room);
  fits =
      rw
        (ap (bit_or e.local_bits) (one_times (2 ^ e.num_local_bits))
          ∙ bit_or_shifted e.num_local_bits e.local_bits 1 o.fits)
        (omega (arith, double e.num_local_bits, o.fits));
  no_error = o.no_error;
}
  where
    one_times : (x : ℕ) → x ≡ 1 * x
    one_times x = omega arith
count_bit-IsFilled false e o = record {
  room = omega (arith, o.room);
  fits = omega (arith, double e.num_local_bits, o.fits);
  no_error = o.no_error;
}

encode_bit-eq :
    (bit : Bool) (e : RansBitEncoder) → e.error ≡ none → encode_bit bit e ≡ flush (count_bit bit e)
unfolding encode_bit
encode_bit-eq bit e h =
    ap
      (λ (x : Option Error). elim x as (λ y. RansBitEncoder) [
        | none ↦ flush (count_bit bit e)
        | some y ↦ e
      ])
      h

pub encode_bit-IsOpen : (bit : Bool) (e : RansBitEncoder) → IsOpen e → IsOpen (encode_bit bit e)
encode_bit-IsOpen bit e o =
    subst IsOpen (sym (encode_bit-eq bit e o.no_error))
      (flush-IsOpen (count_bit bit e) (count_bit-IsFilled bit e o))

pub held-encode_bit :
    (bit : Bool) (e : RansBitEncoder) → IsOpen e → held (encode_bit bit e) ≡ held e ++ (bit ∷ [])
held-encode_bit bit e o =
    ap held (encode_bit-eq bit e o.no_error) ∙ flush-held (count_bit bit e) ∙ count_bit-held bit e o

-- Calls of EncodeBit in the order of the list.
unfoldable pub encode_bits : List Bool → RansBitEncoder → RansBitEncoder
encode_bits [] e = e
encode_bits (b ∷ bs) e = encode_bits bs (encode_bit b e)

pub held-encode_bits :
    (bs : List Bool) (e : RansBitEncoder)
    → IsOpen e
    → IsOpen (encode_bits bs e) × (held (encode_bits bs e) ≡ held e ++ bs)
unfolding encode_bits
held-encode_bits [] e o = (o, sym (append-nil (held e)))
held-encode_bits (b ∷ bs) e o =
    let (o', h) = held-encode_bits bs (encode_bit b e) (encode_bit-IsOpen b e o) in
    (o', h ∙ ap (λ xs. xs ++ bs) (held-encode_bit b e o) ∙ append_assoc (held e) (b ∷ []) bs)

pub cleared-IsOpen : IsOpen cleared
cleared-IsOpen = record { room = omega arith; fits = omega arith; no_error = refl }

-- EndEncoding's loops write the bits held, from the last to the first.
pub write-held :
    (e : RansBitEncoder) (p0 : ℕ) (w : RansBitWriter)
    → write_words e.bits p0 (write_word e.num_local_bits e.local_bits p0 w)
      ≡ write_list (held e) p0 w
unfolding held
write-held e p0 w =
    ap (write_words e.bits p0) (write_word-list e.num_local_bits e.local_bits p0 w)
    ∙ write_words-list e.bits p0 (write_list (low_bits e.num_local_bits e.local_bits) p0 w)
    ∙ sym (write_list-append (words_bits e.bits) (low_bits e.num_local_bits e.local_bits) p0 w)
