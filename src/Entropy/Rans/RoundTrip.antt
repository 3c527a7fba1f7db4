-- ===== src/Entropy/Rans/RoundTrip.antt =====
-- Whole runs: the encoder from the last symbol to the first, the decoder from the first to the last.
use go_draco.Common.{
  ℕ, zero, suc, ◌^◌, ◌≤◌, ◌≡◌, refl, sym, ap, List, [], ◌∷◌, some, length, All, get_or,
}
use go_draco.Entropy.RansDecoder.{RansSym, zero_sym, RansDecoder, read_symbol}
use go_draco.Entropy.RansEncoder.{RansEncoder, write_symbol, write_symbols, put_symbol}
use go_draco.Entropy.Rans.Step.{
  HasShare, EncoderReady, DecoderReady, Tracks, Owns, write_symbol-ends, put_symbol-EncoderReady,
  read_symbol-eq, read_symbol-Tracks, DecoderReady-moved,
}
use mathlib.Core.Option
use mathlib.Core.Path.{subst₂}

-- `n` calls of ReadSymbol.
unfoldable pub read_symbols : ℕ → RansDecoder → List ℕ
read_symbols zero d = []
read_symbols (suc n) d = let (s, d') = read_symbol d in s ∷ read_symbols n d'

-- Every symbol of the list has a share in the table, and the decoder's tables say so.
abbrev pub Decodable : ℕ → List RansSym → List ℕ → List RansSym → List ℕ → Type 0
Decodable bits table lut entries ss =
    All
      (λ s. HasShare bits (get_or table s zero_sym) × Owns lut entries s (get_or table s zero_sym))
      ss

module _ (bits : ℕ) (small : 2 ^ bits ≤ 2 ^ 20) (table : List RansSym) (lut : List ℕ)
    (entries : List RansSym) where
  -- A run of the encoder that ends ready, and that every decoder that tracks its end undoes.
  abbrev Undone : List ℕ → RansEncoder → RansEncoder → Type 0
  Undone ss e e' =
      EncoderReady bits e'
      × ((d : RansDecoder)
          → d.lut_table ≡ lut
          → d.prob_table ≡ entries
          → DecoderReady bits d
          → Tracks e' d
          → read_symbols (length ss) d ≡ ss)

  extend :
      (s : ℕ) (ss : List ℕ) (e e' : RansEncoder)
      → HasShare bits (get_or table s zero_sym) × Owns lut entries s (get_or table s zero_sym)
      → Undone ss e e'
      → (e'' : RansEncoder) × (write_symbol (get_or table s zero_sym) e' ≡ some e'')
        × Undone (s ∷ ss) e e''
  unfolding read_symbols
  extend s ss e e' (h, o) (r, back) =
      let (t, ends, writes, low, high) = write_symbol-ends bits small e' r share h in
      (
        put_symbol share e' t,
        writes,
        (
          put_symbol-EncoderReady bits small e' r share h t low high,
          λ d p q dr k.
              let o' = subst₂ (λ l x. Owns l x s share) (sym p) (sym q) o in
              rw (read_symbol-eq bits small e' r share h t low high ends d dr s o' k) (
                ap (◌∷◌ s) (
                  back (record d { buf_offset = length (put_symbol share e' t).buf; state = t.1 }) p
                    q (DecoderReady-moved bits _ _ d dr)
                    (read_symbol-Tracks bits small e' r share h t low high ends d dr s o' k))),
        ),
      )
    where
      share : RansSym
      share = get_or table s zero_sym

  -- The encoder ends on symbols with a share, and what it wrote is undone.
  pub write_symbols-Undone :
      (ss : List ℕ) (e : RansEncoder)
      → EncoderReady bits e
      → Decodable bits table lut entries ss
      → (e' : RansEncoder) × (write_symbols table ss e ≡ some e') × Undone ss e e'
  unfolding write_symbols Option.bind read_symbols
  write_symbols-Undone [] e r h = (e, refl, (r, λ d p q dr k. refl))
  write_symbols-Undone (s ∷ ss) e r (h, hs) =
      let (e', writes, undone) = write_symbols-Undone ss e r hs in
      let (e'', writes', undone') = extend s ss e e' h undone in
      (e'', rw (writes, writes'), undone')
