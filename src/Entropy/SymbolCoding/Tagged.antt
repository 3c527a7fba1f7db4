-- ===== src/Entropy/SymbolCoding/Tagged.antt =====
-- The tagged scheme: decodeTaggedSymbols on what encodeTaggedSymbols writes.
use go_draco.Entropy.SymbolCoding.Raw.{output-passes}
use go_draco.Core.Writer.Laws.{write_bytes-Writes}
use go_draco.Core.Codec.{Writes, Writes-then}
use go_draco.Entropy.SymbolCoding.Table.{Refuses, encode_with_table-trip, Refuses-first}
use go_draco.Entropy.Probabilities.Frequencies.{IsRounding}
use go_draco.Entropy.Probabilities.{FloatOps}
use mathlib.Core.Path.{subst}
use go_draco.Core.BitPacking.RoundTrip.{
  written-IsByte, Pending, written-Pending, total_width, written-length, written_done,
}
use go_draco.Core.BitWriter.{new_bit_writer}
use go_draco.Entropy.SymbolCoding.Scratch.{
  Streams, Yields, keep_decoder-Sound, read_all-Serving, Yields-bind,
}
use go_draco.Entropy.RansDecoder.{RansDecoder}
use go_draco.Core.BitPacking.{write_fields}
use go_draco.Entropy.SymbolCoding.Counts.{
  positive_len_bounds, max_of-lt, All-weaken, max_of-bounds, tally-Counted,
}
use native.Mathlib.Nat.{mod-eq_of_lt, mod-eq-sub-mod}
use go_draco.Common.Int.{ℤ}
use go_draco.Core.BitWriter
use go_draco.Entropy.Symbols.{
  read_tagged_values, compute_rans_precision_bits, keep_decoder, read_all, run_tags,
  decode_tagged_symbols, create_symbol_decoder,
}
use go_draco.Entropy.Symbols.{filled}
use go_draco.Core.Reader.{advance, remaining_bytes, Reader, AtHand, moved}
use go_draco.Entropy.SymbolCoding.Groups.{Groups, group_fields-Fits, tagged_loop-symbols}
use go_draco.Entropy.SymbolEncoding.{
  group_lengths, max_of, group_fields, encode_tagged_symbols, encode_with_table, tally, total_of,
}
use go_draco.Common.{
  ℕ, zero, suc, ◌+◌, ◌-◌, ◌*◌, ◌/◌, ◌%◌, ◌^◌, ◌≤◌, ◌<◌, ◌≡◌, ◌⊎◌, refl, sym, ap, ◌∙◌, inl, inr,
  Bool, false, Bool-cases, List, [], ◌∷◌, ◌++◌, append-nil, length, All, take, drop, replicate,
  length-append, length-drop, arith, ltb, ltb→lt, ltb→ge, ge→ltb, ok, bind_ok, on_left, ne→==_false,
  invalid_rans_normalization,
}

All-take : (P : ℕ → Type 0) (n : ℕ) (xs : List ℕ) → All P xs → All P (take n xs)
All-take P zero xs h = tt
All-take P (suc n) [] h = h
All-take P (suc n) (x ∷ xs) (h, hs) = (h, All-take P n xs hs)

All-drop : (P : ℕ → Type 0) (n : ℕ) (xs : List ℕ) → All P xs → All P (drop n xs)
All-drop P zero xs h = h
All-drop P (suc n) [] h = h
All-drop P (suc n) (x ∷ xs) (h, hs) = All-drop P n xs hs

divides-le : (c n : ℕ) → 0 < n → n % c ≡ 0 → c ≤ n
divides-le c n p m = elim (Bool-cases (ltb n c)) [
  | inr enough ↦ ltb→ge n c enough
  | inl less ↦ absurd (omega (arith, p, m, mod-eq_of_lt (ltb→lt n c less)))
]

-- computeBitLengths makes groups that hold their symbols.
pub group_lengths-Groups :
    (fuel c : ℕ) (ss : List ℕ)
    → 0 < c
    → length ss ≤ fuel
    → length ss % c ≡ 0
    → All (λ v. v < 2 ^ 32) ss
    → Groups c ss (group_lengths fuel c ss)
unfolding group_lengths
group_lengths-Groups zero c [] p h m hs = refl
group_lengths-Groups zero c (s ∷ ss) p h m hs = absurd (omega (arith, h))
group_lengths-Groups (suc fuel) c [] p h m hs = refl
group_lengths-Groups (suc fuel) c (s ∷ ss) p h m hs =
    let room = divides-le c (length (s ∷ ss)) (omega arith) m in
    let group = take c (s ∷ ss) in
    let in_group = All-take (λ v. v < 2 ^ 32) c (s ∷ ss) hs in
    let (holds, some_bit, few) =
      positive_len_bounds (max_of group) (max_of-lt group (2 ^ 32) (omega arith) in_group) in
    let left = length-drop c (s ∷ ss) in
    rw (ne→==_false (length (s ∷ ss)) 0 (λ e. absurd (omega (arith, e)))) (
      (some_bit, few),
      All-weaken (λ v k. omega (arith, k, holds)) group (max_of-bounds group),
      room,
      group_lengths-Groups fuel c (drop c (s ∷ ss)) p (omega (arith, left, h, p))
          (rw left (sym (mod-eq-sub-mod room) ∙ m)) (All-drop (λ v. v < 2 ^ 32) c (s ∷ ss) hs),
    )

Groups-widths : (c : ℕ) (ss ns : List ℕ) → Groups c ss ns → All (λ n. n < 33) ns
Groups-widths c ss [] g = tt
Groups-widths c ss (n ∷ ns) ((some_bit, few), hs, room, g) =
    (omega (arith, few), Groups-widths c (drop c ss) ns g)

-- There are no more groups than symbols, and some if there is a symbol.
Groups-count :
    (c : ℕ) (ss ns : List ℕ)
    → 0 < c
    → Groups c ss ns
    → (length ns ≤ length ss) × (0 < length ss → 0 < length ns)
Groups-count c ss [] p g = (omega arith, λ h. absurd (omega (arith, h, ap length g)))
Groups-count c ss (n ∷ ns) p (b, hs, room, g) = (
  omega (arith, (Groups-count c (drop c ss) ns p g).0, length-drop c ss, room, p),
  λ h. omega arith,
)

advance-at :
    (bs rest : List ℕ) (r : Reader)
    → AtHand bs rest r
    → advance (ℤ.pos (length bs)) r ≡ (ok tt, moved (length bs) r)
unfolding advance remaining_bytes
advance-at bs rest r (v, h) =
    rw
      (ge→ltb (length r.buf) (r.pos + length bs)
        (omega (arith, v, ap length h, length-drop r.pos r.buf, length-append bs rest)))
      refl

filled-all : (ss : List ℕ) → filled (length ss) ss ≡ ss
filled-all ss = ap (λ k. ss ++ replicate k 0) (none_left (length ss)) ∙ append-nil ss
  where
    none_left : (n : ℕ) → n - n ≡ 0
    none_left n = omega arith

module _ (c : ℕ) (ss ns : List ℕ) (m : ℕ) (g : Groups c ss ns) (some_c : 0 < c)
    (few : length ss ≤ 2 ^ 27) where
  abbrev packed : List ℕ
  packed = BitWriter.bytes (write_fields (group_fields c ss ns) (new_bit_writer m)).1

  -- The bytes of the fields after the tags.
  values-Yields :
      (d : RansDecoder)
      → Streams (compute_rans_precision_bits 5) ns d
      → Yields packed (read_tagged_values (length ss) c d) (λ a. a ≡ ss)
  unfolding read_tagged_values BitWriter.bytes
  values-Yields d (reads, v) r s rest at sound =
      let fs = group_fields c ss ns in
      let hs = group_fields-Fits c ss ns g in
      let loop =
        tagged_loop-symbols packed rest (written-IsByte fs m hs) c (length ss) ns ss (length ss) 0 0
          d some_c few (omega arith) (Groups-count c ss ns some_c g).0 g reads
          (subst (λ b. Pending b 0 fs) (append-nil packed) (written-Pending fs m hs [])) in
      let s' = keep_decoder (compute_rans_precision_bits 5) (read_all (length ns) d).1 s in
      let tags : run_tags (length ss) c (remaining_bytes r) d (r, s)
          ≡ (ok (ss, 0 + total_width fs), (r, s')) =
        ap (λ b. run_tags (length ss) c b d (r, s)) (at.1)
        ∙ (λ i. ((loop i).0, (r, keep_decoder (compute_rans_precision_bits 5) (loop i).1 s))) in
      let size : length packed ≡ (0 + total_width fs + 7) / 8 =
        written-length fs m hs ∙ ap (λ w. (w + 7) / 8) (omega arith) in
      let moves : advance (ℤ.pos ((0 + total_width fs + 7) / 8)) r
          ≡ (ok tt, moved (length packed) r) =
        subst (λ k. advance (ℤ.pos k) r ≡ (ok tt, moved (length packed) r)) size
          (advance-at packed rest r at) in
      (
        filled (length ss) ss,
        s',
        bind_ok (run_tags (length ss) c (remaining_bytes r) d) _ (r, s) tags
            ∙ bind_ok (on_left (advance (ℤ.pos ((0 + total_width fs + 7) / 8)))) _ (r, s')
                (λ i. ((moves i).0, ((moves i).1, s'))),
        filled-all ss,
        keep_decoder-Sound (compute_rans_precision_bits 5) (read_all (length ns) d).1 s
            (read_all-Serving (compute_rans_precision_bits 5) (length ns) d v) sound,
      )

module _ (ops : FloatOps) (rounding : IsRounding ops) where
  -- The encoder refuses the normalisation of the tags, or the decoder reads the symbols back.
  pub tagged-trip :
      (c : ℕ) (ss ns : List ℕ) (transient : Bool)
      → 0 < c
      → 0 < length ss
      → length ss ≤ 2 ^ 27
      → Groups c ss ns
      → Refuses invalid_rans_normalization (encode_tagged_symbols ops ss c ns)
        ⊎ ((bs : List ℕ) × Writes bs (encode_tagged_symbols ops ss c ns)
            × Yields bs (decode_tagged_symbols (length ss) c false transient) (λ a. a ≡ ss))
  unfolding encode_tagged_symbols decode_tagged_symbols
  tagged-trip c ss ns transient some_c some_symbol few g =
      let (fewer, some_group) = Groups-count c ss ns some_c g in
      let t = tally-Counted 33 ns (Groups-widths c ss ns g) in
      let fs = group_fields c ss ns in
      let m = total_of ns * c in
      elim (encode_with_table-trip ops rounding (tally (replicate 33 0) ns) ns 5
        (omega (arith, t.count, some_group some_symbol)) (omega (arith, t.size))
        (omega (arith, t.count, fewer, few)) t.known (omega (arith, fewer, few))) [
          | inl refuses ↦ inl (
              Refuses-first invalid_rans_normalization
                (encode_with_table ops (tally (replicate 33 0) ns) (compute_rans_precision_bits 5)
                  ns)
                _ refuses)
          | inr (bs, writes, yields) ↦ inr (
            bs ++ packed c ss ns m g some_c few,
            Writes-then bs (packed c ss ns m g some_c few) writes (
                rw (written_done fs m (group_fields-Fits c ss ns g))
                  (write_bytes-Writes (packed c ss ns m g some_c few))),
            Yields-bind bs (packed c ss ns m g some_c few) (create_symbol_decoder 5 false) _
                (Streams (compute_rans_precision_bits 5) ns) (λ a. a ≡ ss) yields
                (λ d streams.
                  subst (λ k. Yields (packed c ss ns m g some_c few) k (λ a. a ≡ ss))
                    (sym (
                      output-passes transient (length ss) (read_tagged_values (length ss) c d) few))
                    (values-Yields c ss ns m g some_c few d streams)),
          )
        ]
