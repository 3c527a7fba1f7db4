-- ===== src/Entropy/Rans/Tests.antt =====
-- Concrete runs of the rANS symbol coder, at a precision of 4 bits.
use go_draco.Common.{ℕ, ◌≡◌, refl, List, [], ◌∷◌, some, arith, ok, err}
use go_draco.Entropy.RansDecoder.{new_rans_decoder, build_lookup, RansDecoder, init}
use go_draco.Entropy.RansEncoder.{new_rans_encoder, reset, write_symbols, bytes, RansEncoder}
use go_draco.Entropy.Rans.Lookup.{sum, shares, sum_error}
use go_draco.Entropy.Rans.Cache.{
  Loaded, build_lookup-Loaded, build_lookup-refused, new_rans_decoder-CacheSound,
}
use go_draco.Entropy.Rans.RoundTrip.{read_symbols}
use go_draco.Entropy.Rans.Session.{Serving, read_symbols-write_symbols, new_rans_decoder-Serving}

abbrev probs : List ℕ
probs = 3 ∷ 0 ∷ 13 ∷ []

abbrev too_many : List ℕ
too_many = 3 ∷ 14 ∷ []

abbrev message : List ℕ
message = 0 ∷ 2 ∷ 2 ∷ 0 ∷ 2 ∷ []

read_symbols-write_symbols_example :
    (e : RansEncoder) × (d1 : RansDecoder) × (d2 : RansDecoder) × (write_symbols
        (shares 0 probs)
        message
        (reset 8 (new_rans_encoder 4))
      ≡ some e)
    × (build_lookup probs (new_rans_decoder 4) ≡ (ok tt, d1))
    × (init (bytes e) d1 ≡ (ok tt, d2))
    × (read_symbols 5 d2 ≡ message)
    × Serving 4 d2
unfolding sum
read_symbols-write_symbols_example =
    read_symbols-write_symbols 4 (omega arith) probs message 8 (new_rans_decoder 4) refl
      (omega arith, (omega arith, (omega arith, (omega arith, (omega arith, tt)))))
      (new_rans_decoder-Serving 4 (omega arith))

build_lookup-Loaded_example :
    (d' : RansDecoder) × (build_lookup probs (new_rans_decoder 4) ≡ (ok tt, d'))
    × Loaded probs (new_rans_decoder 4) d'
unfolding sum new_rans_decoder
build_lookup-Loaded_example =
    build_lookup-Loaded probs (new_rans_decoder 4) (omega arith) (new_rans_decoder-CacheSound 4)
      refl

build_lookup-refused_example :
    (d' : RansDecoder) × (build_lookup too_many (new_rans_decoder 4) ≡ (err (sum_error 16 17), d'))
    × (d'.lookup_cache ≡ (new_rans_decoder 4).lookup_cache)
    × (d'.next_cache ≡ (new_rans_decoder 4).next_cache)
unfolding sum new_rans_decoder
build_lookup-refused_example =
    build_lookup-refused too_many (new_rans_decoder 4) (omega arith) (new_rans_decoder-CacheSound 4)
      (omega arith, (omega arith, tt)) (λ e. absurd (omega (arith, e)))
