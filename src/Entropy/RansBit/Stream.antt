-- ===== src/Entropy/RansBit/Stream.antt =====
-- Whole streams of the rANS bit coder, through Writer and Reader.
use native.Mathlib.Nat.{mod-eq_of_lt}
use go_draco.Common.{
  ℕ, suc, ◌+◌, ◌-◌, ◌%◌, ◌^◌, ◌<◌, ◌≡◌, refl, sym, ap, ◌∙◌, Bool, true, false, List, [], ◌∷◌, ◌++◌,
  append_assoc, Option, none, some, length, length-append, length-drop, arith, ltb, ◌==◌, ge→ltb,
  Error, Result, ok, err, bind_ok, on_right,
}
use go_draco.Common.Int.{ℤ}
use go_draco.Core.Codec.{Writes, Writes-then, Reads, AtHand-moved}
use go_draco.Core.Reader.{
  Reader, AtHand, moved, remaining, remaining_bytes, read_uint8, read_bytes_view,
}
use go_draco.Core.Reader.Laws.{read_uint8-Reads, read_bytes_view-Reads}
use go_draco.Core.Writer.{Writer}
use go_draco.Core.Writer.Laws.{write_uint8-Writes, write_bytes-Writes}
use go_draco.Core.Varint.{encode_var_uint32, decode_var_uint32}
use go_draco.Core.Varint.Laws.{decode-encode_var_uint32}
use go_draco.Entropy.RansBit.{
  RansBitEncoder, RansBitWriter, RansBitDecoder, cleared, end, end_encoding, write_payload,
  clear_if_ok, zero_probability, write_words, write_word, init, start_decoding,
  start_decoding_versioned, emit, end_decoding,
}
use go_draco.Entropy.RansBit.Step.{InInterval, share_of}
use go_draco.Entropy.RansBit.Digits.{write_list, words_bits, low_bits}
use go_draco.Entropy.RansBit.Packing.{
  encode_bits, held, IsOpen, held-encode_bits, cleared-IsOpen, write-held,
}
use go_draco.Entropy.RansBit.Tail.{started, end-Ends, started-Tracks}
use go_draco.Entropy.RansBit.RoundTrip.{
  decode_bits, decode_bits-write_list, write_list-InInterval, length-write_list, last_of,
}

abbrev pub start : RansBitWriter
start = record { buf = []; state = 4096 }

pub start-InInterval : InInterval start
start-InInterval = (omega arith, omega arith)

zero_probability-bounds :
    (scaled : ℕ → ℕ → ℕ) (e : RansBitEncoder)
    → (0 < zero_probability scaled e) × (zero_probability scaled e < 256)
unfolding zero_probability
zero_probability-bounds scaled e = ground arith

-- What EndEncoding does where no call has failed.
end_encoding-eq :
    (scaled : ℕ → ℕ → ℕ) (e : RansBitEncoder) (w : Writer)
    → e.error ≡ none
    → end_encoding scaled (e, w)
      ≡ clear_if_ok (
          on_right
            (write_payload (zero_probability scaled e) (
              end (
                write_words e.bits
                  (zero_probability scaled e)
                  (write_word e.num_local_bits e.local_bits (zero_probability scaled e) start))))
            (e, w))
unfolding end_encoding
end_encoding-eq scaled e w h =
    ap
      (λ (x : Option Error). elim x as (λ y. Result (Unit {0}) × (RansBitEncoder × Writer)) [
        | none ↦ clear_if_ok (
            on_right
              (write_payload (zero_probability scaled e) (
                end (
                  write_words e.bits (zero_probability scaled e)
                    (write_word e.num_local_bits e.local_bits (zero_probability scaled e) start))))
              (e, w))
        | some y ↦ (err y, (cleared, w))
      ])
      h

module _ (p0 : ℕ) (size_bytes stream : List ℕ) where
  -- The payload: the probability, the size and the stream.
  abbrev pub packed : List ℕ
  packed = (p0 ∷ []) ++ size_bytes ++ stream

  packed-Writes :
      length stream < 2 ^ 32
      → Writes size_bytes (encode_var_uint32 (length stream))
      → Writes packed (write_payload p0 (ok stream))
  unfolding write_payload
  packed-Writes h v = rw (mod-eq_of_lt {n = length stream} {m = 2 ^ 32} h) (
      Writes-then ((p0 ∷ []) ++ size_bytes) stream
        (Writes-then (p0 ∷ []) size_bytes (write_uint8-Writes p0) v) (write_bytes-Writes stream))

  pub start_decoding-packed :
      (d : RansBitDecoder) (r : Reader) (rest : List ℕ)
      → Reads size_bytes decode_var_uint32 (length stream)
      → init p0 stream ≡ ok d
      → AtHand packed rest r
      → remaining r < 2 ^ 32
      → start_decoding r ≡ (ok d, moved (length packed) r)
  unfolding start_decoding start_decoding_versioned remaining remaining_bytes
  start_decoding-packed d r rest v starts h small =
      let r1 = moved 1 r in
      let h1 = AtHand-moved r (p0 ∷ []) ((size_bytes ++ stream) ++ rest) h in
      let h1' : AtHand size_bytes (stream ++ rest) r1 =
        (h1.0, h1.1 ∙ append_assoc size_bytes stream rest) in
      let r2 = moved (length size_bytes) r1 in
      let h2 = AtHand-moved r1 size_bytes (stream ++ rest) h1' in
      let left : length r2.buf - r2.pos ≡ length stream + length rest =
        sym (length-drop r2.pos r2.buf) ∙ ap length h2.1 ∙ length-append stream rest in
      let fits : ltb ((length r2.buf - r2.pos) % 2 ^ 32) (length stream) ≡ false =
        ge→ltb ((length r2.buf - r2.pos) % 2 ^ 32) (length stream) (omega (arith, left, small)) in
      bind_ok read_uint8 _ r (read_uint8-Reads p0 r ((size_bytes ++ stream) ++ rest) h)
      ∙ bind_ok decode_var_uint32 _ r1 (v r1 (stream ++ rest) h1')
      ∙ rw fits (
          bind_ok (read_bytes_view (ℤ.pos (length stream))) _ r2
            (read_bytes_view-Reads stream r2 rest h2)
          ∙ (λ k. (starts k, record r { pos = total k })))
    where
      total :
          r.pos + 1 + length size_bytes + length stream
          ≡ r.pos + suc (length (size_bytes ++ stream))
      total = omega (arith, length-append size_bytes stream)

pub held-all :
    (bs : List Bool) → IsOpen (encode_bits bs cleared) × (held (encode_bits bs cleared) ≡ bs)
unfolding held words_bits low_bits
held-all bs = held-encode_bits bs cleared cleared-IsOpen

-- EndEncoding on an encoder that holds some bits.
pub end_encoding-held :
    (scaled : ℕ → ℕ → ℕ) (e : RansBitEncoder) (w : Writer) (bs : List Bool)
    (stream size_bytes : List ℕ)
    → e.error ≡ none
    → held e ≡ bs
    → end (write_list bs (zero_probability scaled e) start) ≡ ok stream
    → length stream < 2 ^ 32
    → Writes size_bytes (encode_var_uint32 (length stream))
    → end_encoding scaled (e, w) ≡ (
      ok tt,
      (cleared, record { buf = w.buf ++ packed (zero_probability scaled e) size_bytes stream }),
    )
end_encoding-held scaled e w bs stream size_bytes no_error all_held ends size v =
    let p0 = zero_probability scaled e in
    let run : end (write_words e.bits p0 (write_word e.num_local_bits e.local_bits p0 start))
        ≡ ok stream =
      ap end (write-held e p0 start ∙ ap (λ l. write_list l p0 start) all_held) ∙ ends in
    end_encoding-eq scaled e w no_error
    ∙ ap (λ s. clear_if_ok (on_right (write_payload p0 s) (e, w))) run
    ∙ ap (λ s. clear_if_ok (s.0, (e, s.1))) (packed-Writes p0 size_bytes stream size v w)

-- The state that the bit written first leaves in the decoder.
end_decoding-first :
    (l : ℕ) (d : RansBitDecoder)
    → 0 < l
    → d.error ≡ none
    → d.state ≡ (emit l start).state
    → end_decoding d ≡ ltb 1 l
unfolding end_decoding emit
end_decoding-first l d pos none_yet state =
    ap (λ (x : Option Error). elim x as (λ y. Bool) [ none ↦ d.state == 4096 | some y ↦ false ])
      none_yet
    ∙ ap (λ s. s == 4096) state
    ∙ ground arith

share_of-positive : (b : Bool) (p0 : ℕ) → 0 < p0 → p0 < 256 → 0 < share_of b p0
share_of-positive true p0 pos small = omega arith
share_of-positive false p0 pos small = pos

-- For one bit or more, and any rounding of their share of zeros: StartEncoding, EncodeBit for each of fewer
-- than 2^31 bits and EndEncoding succeed. Wherever the bytes that they append come next in a reader
-- with less than 2^32 bytes left, StartDecoding accepts exactly them, DecodeNextBit returns the bits
-- in their order, and then EndDecoding is true exactly when the last bit has more than one of the 256
-- parts of the probability.
pub decode_bits-encode_bits :
    (scaled : ℕ → ℕ → ℕ) (b : Bool) (bs : List Bool) (w : Writer)
    → suc (length bs) < 2 ^ 31
    → (bytes : List ℕ) × (end_encoding scaled (encode_bits (b ∷ bs) cleared, w)
        ≡ (ok tt, (cleared, record { buf = w.buf ++ bytes })))
      × ((r : Reader) (rest : List ℕ)
          → AtHand bytes rest r
          → remaining r < 2 ^ 32
          → (d d' : RansBitDecoder) × (start_decoding r ≡ (ok d, moved (length bytes) r))
            × (decode_bits (suc (length bs)) d ≡ (b ∷ bs, d'))
            × (end_decoding d'
                ≡ ltb 1 (
                    share_of
                      (last_of b bs)
                      (zero_probability scaled (encode_bits (b ∷ bs) cleared)))))
decode_bits-encode_bits scaled b bs w few =
    let e = encode_bits (b ∷ bs) cleared in
    let p0 = zero_probability scaled e in
    let (pos, small) = zero_probability-bounds scaled e in
    let (o, all_held) = held-all (b ∷ bs) in
    let ans = write_list (b ∷ bs) p0 start in
    let i = write_list-InInterval p0 pos small (b ∷ bs) start start-InInterval in
    let (tail, ends, some_tail, short, starts) = end-Ends p0 ans i in
    let stream = ans.buf ++ tail in
    let size : length stream < 2 ^ 32 = omega (
      arith,
      length-append ans.buf tail,
      short,
      few,
      length-write_list p0 pos small (b ∷ bs) start start-InInterval,
    ) in
    let (size_bytes, v, v') = decode-encode_var_uint32 (length stream) size in
    (
      packed p0 size_bytes stream,
      end_encoding-held scaled e w (b ∷ bs) stream size_bytes o.no_error all_held ends size v,
      λ r rest h left.
          let (d', reads, state, s) =
            decode_bits-write_list p0 pos small b bs start (started p0 ans stream) start-InInterval
              (refl, refl) (started-Tracks p0 ans i tail) in
          (
            started p0 ans stream,
            d',
            start_decoding-packed p0 size_bytes stream (started p0 ans stream) r rest v' starts h
                left,
            reads,
            end_decoding-first (share_of (last_of b bs) p0) d'
                (share_of-positive (last_of b bs) p0 pos small) s.1 state,
          ),
    )
