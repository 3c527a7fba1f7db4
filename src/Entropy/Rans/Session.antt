-- ===== src/Entropy/Rans/Session.antt =====
-- A decoder across many streams, as symbols.go uses it: BuildLookup, Init and the reads, on the
-- output of RansEncoder.
use native.Mathlib.Nat.{pow-le-pow_right}
use go_draco.Common.{
  ℕ, ◌^◌, ◌≤◌, ◌<◌, ◌≡◌, refl, sym, ◌∙◌, List, [], ◌∷◌, some, length, All, get_or, arith, ok,
}
use mathlib.Core.Path.{subst}
use go_draco.Entropy.RansDecoder.{RansDecoder, new_rans_decoder, build_lookup, init, RansSym}
use go_draco.Entropy.RansEncoder.{new_rans_encoder, reset, write_symbols, bytes, RansEncoder}
use go_draco.Entropy.Rans.Lookup.{sum, shares, Represents}
use go_draco.Entropy.Rans.Shares.{shares-HasShare, Represents-Owns}
use go_draco.Entropy.Rans.Cache.{
  CacheSound, SameCoder, build_lookup-Loaded, new_rans_decoder-CacheSound,
}
use go_draco.Entropy.Rans.Step.{EncoderReady, DecoderReady}
use go_draco.Entropy.Rans.Tail.{started, init-bytes, started-Tracks}
use go_draco.Entropy.Rans.RoundTrip.{read_symbols, Decodable, write_symbols-Undone}

-- A decoder of that precision whose cache is sound, whatever it has decoded before.
pub record Serving (bits : ℕ) (d : RansDecoder) : Type 0 where
  pub precision_bits : d.precision ≡ 2 ^ bits
  pub ready : DecoderReady bits d
  pub cache : CacheSound d

power_bound : (bits : ℕ) → bits ≤ 20 → 2 ^ bits ≤ 2 ^ 20
power_bound bits h = pow-le-pow_right (omega arith) h

power_positive : (bits : ℕ) → 1 ≤ 2 ^ bits
power_positive bits = pow-le-pow_right {n = 2} (omega arith) {i = 0} {j = bits} (omega arith)

module _ (bits : ℕ) (small : bits ≤ 20) where
  -- A new decoder is serving.
  pub new_rans_decoder-Serving : Serving bits (new_rans_decoder bits)
  unfolding new_rans_decoder
  new_rans_decoder-Serving =
      let bound = power_bound bits small in
      let positive = power_positive bits in
      record {
        precision_bits = omega (arith, bound);
        ready = record {
          shift_bits = refl;
          mask_bits = omega (arith, bound, positive);
          base = omega (arith, bound);
        };
        cache = new_rans_decoder-CacheSound bits;
      }

  new_encoder-Ready : (n : ℕ) → EncoderReady bits (reset n (new_rans_encoder bits))
  unfolding new_rans_encoder reset
  new_encoder-Ready n =
      let bound = power_bound bits small in
      let positive = power_positive bits in
      record {
        precision_bits = omega (arith, bound);
        base = omega (arith, bound);
        low = omega (arith, bound);
        high = omega (arith, bound, positive);
      }

  -- BuildLookup on a serving decoder.
  Serving-loaded :
      (d d' : RansDecoder) → Serving bits d → CacheSound d' → SameCoder d d' → Serving bits d'
  Serving-loaded d d' v sound same = record {
    precision_bits = same.precision ∙ v.precision_bits;
    ready = record {
      shift_bits = same.shift ∙ v.ready.shift_bits;
      mask_bits = same.mask ∙ v.ready.mask_bits;
      base = same.l_base ∙ v.ready.base;
    };
    cache = sound;
  }

  shares-Decodable :
      (ps : List ℕ) (lut : List ℕ) (syms : List RansSym) (ss : List ℕ)
      → Represents (2 ^ bits) ps lut syms
      → All (λ s. 0 < get_or ps s 0) ss
      → Decodable bits (shares 0 ps) lut syms ss
  shares-Decodable ps lut syms [] r h = tt
  shares-Decodable ps lut syms (s ∷ ss) r (h, hs) = (
    (shares-HasShare bits ps r.total s h, Represents-Owns bits ps r.total s h lut syms r),
    shares-Decodable ps lut syms ss r hs,
  )

  -- Let the probabilities add up to 2^bits, with bits ≤ 20, and let each of the symbols have a
  -- positive one. The encoder ends when it writes the symbols, last first. Any decoder of that
  -- precision with a sound cache accepts the probabilities (BuildLookup) and the encoder's bytes
  -- (Init), then reads the symbols back, first first, and its cache is sound again.
  pub read_symbols-write_symbols :
      (ps ss : List ℕ) (n : ℕ) (d : RansDecoder)
      → sum ps ≡ 2 ^ bits
      → All (λ s. 0 < get_or ps s 0) ss
      → Serving bits d
      → (e : RansEncoder) × (d1 : RansDecoder) × (d2 : RansDecoder) × (write_symbols
            (shares 0 ps)
            ss
            (reset n (new_rans_encoder bits))
          ≡ some e)
        × (build_lookup ps d ≡ (ok tt, d1))
        × (init (bytes e) d1 ≡ (ok tt, d2))
        × (read_symbols (length ss) d2 ≡ ss)
        × Serving bits d2
  read_symbols-write_symbols ps ss n d total positive v =
      let bound = power_bound bits small in
      let (d1, built, (r, sound, same)) =
        build_lookup-Loaded ps d (rw v.precision_bits (omega (arith, bound))) v.cache
          (total ∙ sym v.precision_bits) in
      let r' = subst (λ m. Represents m ps d1.lut_table d1.prob_table) v.precision_bits r in
      let v1 = Serving-loaded d d1 v sound same in
      let (e, writes, (ready, back)) =
        write_symbols-Undone bits bound (shares 0 ps) d1.lut_table d1.prob_table ss
          (reset n (new_rans_encoder bits)) (new_encoder-Ready n)
          (shares-Decodable ps d1.lut_table d1.prob_table ss r' positive) in
      let v2 =
        Serving-loaded d1 (started e d1) v1 v1.cache
          (record { precision = refl; shift = refl; mask = refl; l_base = refl }) in
      (
        e,
        d1,
        started e d1,
        writes,
        built,
        init-bytes bits bound e ready d1 v1.ready,
        back (started e d1) refl refl v2.ready (started-Tracks bits bound e ready d1 v1.ready),
        v2,
      )
