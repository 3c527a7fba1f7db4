-- ===== src/Entropy/FoldedBit/RoundTrip.antt =====
-- FoldedBit32Decoder reads what FoldedBit32Encoder wrote, over any coder that keeps its bits.
use go_draco.Common.{
  ℕ, ◌+◌, ◌^◌, ◌≤◌, ◌<◌, ◌≡◌, refl, sym, ap, ◌∙◌, Bool, List, [], ◌∷◌, ◌++◌, append-nil,
  append_assoc, none, some, length, All, replicate, length-append, arith, Result, ok, err, bind_ok,
}
use go_draco.Entropy.BitCoder.{BitCoder, encode_all, Gives, Restores, KeepsBits}
use go_draco.Entropy.FoldedBit.{
  FoldedBit32Encoder, FoldedBit32Decoder, start_encoding, end_each, end_all, end_encoding,
  start_each, start_decoding,
}
use go_draco.Entropy.FoldedBit.Columns.{
  Call, shapes, Fits, columns, plain, AllBelow, length-columns, columns-AllBelow, length-plain,
  encode_calls, encode_columns, holding, encode_calls-columns,
}
use go_draco.Entropy.FoldedBit.Decoding.{decode_calls, AllGive, reading, decode_calls-columns}
use go_draco.Core.Reader.{Reader, AtHand, moved, remaining}
use go_draco.Core.Writer.{Writer}
use go_draco.Core.Codec.{AtHand-moved}

moved-remaining : (n : ℕ) (r : Reader) → remaining (moved n r) ≤ remaining r
unfolding remaining
moved-remaining n r = omega arith

-- Two pieces that come next, one after the other.
module _ (bs cs rest : List ℕ) (r : Reader) (h : AtHand (bs ++ cs) rest r) where
  at_first : AtHand bs (cs ++ rest) r
  at_first = (h.0, h.1 ∙ append_assoc bs cs rest)

  at_second : AtHand cs rest (moved (length bs) r)
  at_second = AtHand-moved r bs (cs ++ rest) at_first

  moved_both : moved (length cs) (moved (length bs) r) ≡ moved (length (bs ++ cs)) r
  moved_both = λ i. record r { pos = total i }
    where
      total : r.pos + length bs + length cs ≡ r.pos + length (bs ++ cs)
      total = omega (arith, length-append bs cs)

module _ {E D : Type 0} (coder : BitCoder E D) (keep : KeepsBits coder) where
  -- StartDecoding of as many decoders as there are columns.
  abbrev RestoresEach : List ℕ → List (List Bool) → Type 0
  RestoresEach bytes cs =
      (r : Reader) (rest : List ℕ)
      → AtHand bytes rest r
      → remaining r < 2 ^ 32
      → (ds : List D) × (start_each coder (length cs) r ≡ (ok ds, moved (length bytes) r))
        × AllGive coder ds cs

  abbrev started : List (List Bool) → List E
  started cs = encode_columns coder cs (replicate (length cs) coder.start)

  RestoresEach-nil : RestoresEach [] []
  unfolding start_each AllGive
  RestoresEach-nil r rest h small = ([], λ i. (ok [], record r { pos = same i }), tt)
    where
      same : r.pos ≡ r.pos + 0
      same = omega arith

  RestoresEach-cons :
      (b bs : List ℕ) (c : List Bool) (cs : List (List Bool))
      → Restores coder b c
      → RestoresEach bs cs
      → RestoresEach (b ++ bs) (c ∷ cs)
  unfolding start_each AllGive
  RestoresEach-cons b bs c cs first later r rest h small =
      let (d, eq, g) = first r (bs ++ rest) (at_first b bs rest r h) small in
      let r' = moved (length b) r in
      let (ds, eqs, gs) =
        later r' rest (at_second b bs rest r h)
          (omega (arith, small, moved-remaining (length b) r)) in
      (
        d ∷ ds,
        bind_ok coder.start_decoding _ r eq
            ∙ bind_ok (start_each coder (length cs)) _ r' eqs
            ∙ (λ i. (ok (d ∷ ds), moved_both b bs rest r h i)),
        (g, gs),
      )

  -- The loop of EndEncoding against that of StartDecoding.
  end_each-columns :
      (m : ℕ) (cs : List (List Bool)) (w : Writer)
      → m < keep.capacity
      → AllBelow m cs
      → (bytes : List ℕ) × (es : List E) × (end_each coder (started cs) w
          ≡ (ok tt, (es, record { buf = w.buf ++ bytes })))
        × RestoresEach bytes cs
  unfolding end_each encode_columns
  end_each-columns m [] w room h =
      ([], [], (λ i. (ok tt, ([], record { buf = sym (append-nil w.buf) i }))), RestoresEach-nil)
  end_each-columns m (c ∷ cs) w room (h, hs) =
      let (b, e, eq, back) = keep.keeps c w (omega (arith, h, room)) in
      let (bs, es, eqs, backs) = end_each-columns m cs (record { buf = w.buf ++ b }) room hs in
      (
        b ++ bs,
        e ∷ es,
        ap (after (started cs)) eq
            ∙ ap (λ (t : Result (Unit {0}) × (List E × Writer)). (t.0, (e ∷ t.1.0, t.1.1))) eqs
            ∙ (λ i. (ok tt, (e ∷ es, record { buf = append_assoc w.buf b bs i }))),
        RestoresEach-cons b bs c cs back backs,
      )
    where
      after : List E → Result (Unit {0}) × (E × Writer) → Result (Unit {0}) × (List E × Writer)
      after later ended =
          let rest = end_each coder later ended.1.1 in
          elim ended.0 [
            | ok t ↦ (rest.0, (ended.1.0 ∷ rest.1.0, rest.1.1))
            | err x ↦ (err x, (ended.1.0 ∷ later, ended.1.1))
          ]

  -- StartDecoding of the whole decoder.
  start_decoding-reading :
      (bs b : List ℕ) (cs : List (List Bool)) (c : List Bool) (r : Reader) (rest : List ℕ)
      → length cs ≡ 32
      → RestoresEach bs cs
      → Restores coder b c
      → AtHand (bs ++ b) rest r
      → remaining r < 2 ^ 32
      → (ds : List D) × (d : D) × (start_decoding coder r
          ≡ (ok (reading coder ds d), moved (length (bs ++ b)) r))
        × AllGive coder ds cs
        × Gives coder d c
  unfolding start_decoding
  start_decoding-reading bs b cs c r rest all each last h small =
      let (ds, eqs, gs) = each r (b ++ rest) (at_first bs b rest r h) small in
      let r' = moved (length bs) r in
      let (d, eq, g) =
        last r' rest (at_second bs b rest r h)
          (omega (arith, small, moved-remaining (length bs) r)) in
      (
        ds,
        d,
        bind_ok (start_each coder 32) _ r (ap (λ n. start_each coder n r) (sym all) ∙ eqs)
            ∙ bind_ok coder.start_decoding _ r' eq
            ∙ (λ i. (ok (reading coder ds d), moved_both bs b rest r h i)),
        gs,
        g,
      )

  end_encoding-holding :
      (es es' : List E) (e e' : E) (w : Writer) (bs b : List ℕ)
      → end_each coder es w ≡ (ok tt, (es', record { buf = w.buf ++ bs }))
      → coder.end_encoding (e, record { buf = w.buf ++ bs })
        ≡ (ok tt, (e', record { buf = (w.buf ++ bs) ++ b }))
      → end_encoding coder (holding coder es e, w)
        ≡ (ok tt, (holding coder es' e', record { buf = w.buf ++ (bs ++ b) }))
  unfolding end_encoding end_all
  end_encoding-holding es es' e e' w bs b first last =
      ap after first
      ∙ ap (λ (t : Result (Unit {0}) × (E × Writer)). (t.0, (holding coder es' t.1.0, t.1.1))) last
      ∙ (λ i. (ok tt, (holding coder es' e', record { buf = append_assoc w.buf bs b i })))
    where
      after :
          Result (Unit {0}) × (List E × Writer)
          → Result (Unit {0}) × (FoldedBit32Encoder E × Writer)
      after each =
          let last = coder.end_encoding (e, each.1.1) in
          elim each.0 [
            | ok t ↦
                (last.0, (record { folded = each.1.0; bits = last.1.0; error = none }, last.1.1))
            | err x ↦ (err x, (record { folded = each.1.0; bits = e; error = none }, each.1.1))
          ]

  -- Let a bit coder keep its bits up to some number. For fewer calls than that, each EncodeBit or
  -- EncodeLeastSignificantBits32 with a width from 1 to 32 and a value of that width, StartEncoding, the
  -- calls and EndEncoding of the folded coder succeed. Wherever the bytes that they append come next in
  -- a reader with less than 2^32 bytes left, StartDecoding accepts exactly them, and the decoder
  -- answers calls of the same widths with the same bits and values.
  pub decode_calls-encode_calls :
      (calls : List Call) (w : Writer)
      → length calls < keep.capacity
      → All Fits calls
      → (bytes : List ℕ) × (e : FoldedBit32Encoder E) × (end_encoding coder
            (encode_calls coder calls (start_encoding coder), w)
          ≡ (ok tt, (e, record { buf = w.buf ++ bytes })))
        × ((r : Reader) (rest : List ℕ)
            → AtHand bytes rest r
            → remaining r < 2 ^ 32
            → (d d' : FoldedBit32Decoder D) × (start_decoding coder r
                ≡ (ok d, moved (length bytes) r))
              × (decode_calls coder (shapes calls) d ≡ (some calls, d')))
  unfolding start_encoding
  decode_calls-encode_calls calls w room fits =
      let cs = columns calls in
      let start : List E = replicate 32 coder.start in
      let (bs, es, eqs, each) =
        end_each-columns (length calls) cs w room (columns-AllBelow calls) in
      let (b, e, eq, last) =
        keep.keeps (plain calls) (record { buf = w.buf ++ bs })
          (omega (arith, room, length-plain calls)) in
      (
        bs ++ b,
        holding coder es e,
        ap (λ t. end_encoding coder (t, w))
              (encode_calls-columns coder calls start coder.start fits refl)
            ∙ end_encoding-holding (encode_columns coder cs start) es
                (encode_all coder (plain calls) coder.start) e w bs b
                (ap (λ n. end_each coder (encode_columns coder cs (replicate n coder.start)) w)
                    (sym (length-columns calls))
                  ∙ eqs)
                eq,
        λ r rest h small.
            let (ds, d, starts, gs, g) =
              start_decoding-reading bs b cs (plain calls) r rest (length-columns calls) each last h
                small in
            let (d', reads) = decode_calls-columns coder calls ds d fits gs g in
            (reading coder ds d, d', starts, reads),
      )
