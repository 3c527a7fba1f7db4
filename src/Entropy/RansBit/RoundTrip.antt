-- ===== src/Entropy/RansBit/RoundTrip.antt =====
-- Runs of bits, and whole streams: StartEncoding, EncodeBit and EndEncoding against StartDecoding and
-- DecodeNextBit.
use go_draco.Common.{
  ℕ, zero, suc, ◌+◌, ◌≤◌, ◌<◌, ◌≡◌, refl, ap, ◌∙◌, Bool, true, false, List, [], ◌∷◌, Option, none,
  some, length, arith, ltb, Error,
}
use go_draco.Entropy.RansBit.{
  RansBitWriter, RansBitDecoder, write, emit, read, decode_next_bit, bool_to_bit,
}
use go_draco.Entropy.RansBit.Step.{
  InInterval, Tracks, share_of, write-InInterval, read-write, read-keeps, length-write,
}
use go_draco.Entropy.RansBit.Digits.{write_list}

-- `n` calls of DecodeNextBit.
unfoldable pub decode_bits : ℕ → RansBitDecoder → List Bool × RansBitDecoder
decode_bits zero d = ([], d)
decode_bits (suc n) d =
    let (b, d') = decode_next_bit d in let (bs, d'') = decode_bits n d' in (b ∷ bs, d'')

abbrev pub Serves : ℕ → RansBitDecoder → Type 0
Serves p0 d = (d.prob_zero ≡ p0) × (d.error ≡ none)

positive_bit : (b : Bool) → ltb 0 (bool_to_bit b) ≡ b
unfolding bool_to_bit
positive_bit true = refl
positive_bit false = refl

decode_next_bit-eq :
    (d : RansBitDecoder)
    → d.error ≡ none
    → decode_next_bit d ≡ (ltb 0 (read d.prob_zero d).0, (read d.prob_zero d).1)
unfolding decode_next_bit
decode_next_bit-eq d h =
    ap
      (λ (x : Option Error). elim x as (λ y. Bool × RansBitDecoder) [
        | none ↦ (ltb 0 (read d.prob_zero d).0, (read d.prob_zero d).1)
        | some y ↦ (false, d)
      ])
      h

abbrev pub last_of : Bool → List Bool → Bool
last_of b [] = b
last_of b (c ∷ cs) = last_of c cs

decode_bits-suc :
    (n : ℕ) (b : Bool) (d d' : RansBitDecoder)
    → decode_next_bit d ≡ (b, d')
    → decode_bits (suc n) d ≡ (b ∷ (decode_bits n d').0, (decode_bits n d').1)
unfolding decode_bits
decode_bits-suc n b d d' eq =
    ap (λ (t : Bool × RansBitDecoder). (t.0 ∷ (decode_bits n t.1).0, (decode_bits n t.1).1)) eq

module _ (p0 : ℕ) (pos : 0 < p0) (small : p0 < 256) where
  pub write_list-InInterval :
      (bs : List Bool) (w : RansBitWriter) → InInterval w → InInterval (write_list bs p0 w)
  unfolding write_list
  write_list-InInterval [] w i = i
  write_list-InInterval (b ∷ bs) w i =
      write-InInterval p0 pos small (write_list bs p0 w) (write_list-InInterval bs w i) b

  pub length-write_list :
      (bs : List Bool) (w : RansBitWriter)
      → InInterval w
      → length (write_list bs p0 w).buf ≤ length w.buf + length bs
  unfolding write_list
  length-write_list [] w i = omega arith
  length-write_list (b ∷ bs) w i = omega (
    arith,
    length-write_list bs w i,
    length-write p0 pos small (write_list bs p0 w) (write_list-InInterval bs w i) b,
  )

  -- One bit off a decoder that tracks the writer.
  next :
      (b : Bool) (w : RansBitWriter) (d : RansBitDecoder)
      → InInterval w
      → Serves p0 d
      → Tracks (write (bool_to_bit b) p0 w) d
      → (d' : RansBitDecoder) × (decode_next_bit d ≡ (b, d'))
        × (d'.state ≡ (emit (share_of b p0) w).state)
        × Serves p0 d'
        × Tracks w d'
  next b w d i (same, none_yet) t =
      let (bit, state, t') = read-write p0 pos small w i b d t in
      let (k1, k2) = read-keeps p0 d in
      (
        (read p0 d).1,
        decode_next_bit-eq d none_yet
            ∙ (λ k. (ltb 0 (read (same k) d).0, (read (same k) d).1))
            ∙ (λ k. ((ap (ltb 0) bit ∙ positive_bit b) k, (read p0 d).1)),
        state,
        (k1 ∙ same, k2 ∙ none_yet),
        t',
      )

  -- The decoder reads the whole list, and is left where the last bit leaves it.
  pub decode_bits-write_list :
      (b : Bool) (bs : List Bool) (w : RansBitWriter) (d : RansBitDecoder)
      → InInterval w
      → Serves p0 d
      → Tracks (write_list (b ∷ bs) p0 w) d
      → (d' : RansBitDecoder) × (decode_bits (suc (length bs)) d ≡ (b ∷ bs, d'))
        × (d'.state ≡ (emit (share_of (last_of b bs) p0) w).state)
        × Serves p0 d'
  unfolding decode_bits write_list
  decode_bits-write_list b [] w d i s t =
      let (d', eq, state, s', t') = next b w d i s t in (d', rw eq refl, state, s')
  decode_bits-write_list b (c ∷ cs) w d i s t =
      let (d', eq, state, s', t') =
        next b (write_list (c ∷ cs) p0 w) d (write_list-InInterval (c ∷ cs) w i) s t in
      let (d'', eq', state', s'') = decode_bits-write_list c cs w d' i s' t' in
      (
        d'',
        decode_bits-suc (suc (length cs)) b d d' eq
            ∙ ap (λ (t : List Bool × RansBitDecoder). (b ∷ t.0, t.1)) eq',
        state',
        s'',
      )
