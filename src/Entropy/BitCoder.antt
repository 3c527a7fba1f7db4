-- ===== src/Entropy/BitCoder.antt =====
-- internal/entropy/folded_bit.go: the interfaces bitEncoder and bitDecoder. E is the encoder and D the
-- decoder; the method that both share with n-bit values is not used by the folded coder.
use go_draco.Core.Writer.{Writer}
use go_draco.Core.Reader.{Reader, AtHand, moved, remaining}
use go_draco.Common.{ℕ, zero, suc, ◌^◌, ◌<◌, ◌≡◌, Bool, List, [], ◌∷◌, ◌++◌, length, M, ok}

-- StartEncoding and Clear leave the encoder `start`; a decoder is started on a cleared one.
pub record BitCoder (E D : Type 0) : Type 0 where
  pub start : E
  pub encode_bit : Bool → E → E
  pub end_encoding : M (E × Writer) (Unit {0})
  pub start_decoding : M Reader D
  pub decode_next_bit : D → Bool × D
  pub end_decoding : D → Bool

module _ {E D : Type 0} (coder : BitCoder E D) where
  unfoldable pub encode_all : List Bool → E → E
  encode_all [] e = e
  encode_all (b ∷ bs) e = encode_all bs (coder.encode_bit b e)

  unfoldable pub decode_all : ℕ → D → List Bool × D
  decode_all zero d = ([], d)
  decode_all (suc n) d =
      let (b, d') = coder.decode_next_bit d in let (bs, d'') = decode_all n d' in (b ∷ bs, d'')

  -- The decoder gives these bits next.
  abbrev pub Gives : D → List Bool → Type 0
  Gives d bs = (d' : D) × (decode_all (length bs) d ≡ (bs, d'))

  -- Where `bytes` come next, StartDecoding accepts them and the decoder gives the bits.
  abbrev pub Restores : List ℕ → List Bool → Type 0
  Restores bytes bs =
      (r : Reader) (rest : List ℕ)
      → AtHand bytes rest r
      → remaining r < 2 ^ 32
      → (d : D) × (coder.start_decoding r ≡ (ok d, moved (length bytes) r)) × Gives d bs

  -- What a coder promises: up to a number of bits, what was encoded comes back.
  pub record KeepsBits : Type 0 where
    pub capacity : ℕ
    pub keeps :
        (bs : List Bool) (w : Writer)
        → length bs < capacity
        → (bytes : List ℕ) × (e : E) × (coder.end_encoding (encode_all bs coder.start, w)
            ≡ (ok tt, (e, record { buf = w.buf ++ bytes })))
          × Restores bytes bs
