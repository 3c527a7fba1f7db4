-- ===== src/Entropy/SymbolCoding/Table.antt =====
-- A table with its symbols, as encode_with_table writes them and createSymbolDecoder reads them.
use go_draco.Core.Writer.Laws.{write_bytes-Writes}
use mathlib.Core.Path.{subst}
use go_draco.Entropy.SymbolCoding.Size.{payload-length}
use go_draco.Core.Reader.Laws.{read_bytes_view-Reads}
use go_draco.Core.Varint.Laws.{decode-encode_var_uint64}
use go_draco.Common.Int.{ℤ}
use go_draco.Entropy.Probabilities.Frequencies.{length-valid_part}
use native.Mathlib.Nat.{pow-le-pow_right}
use go_draco.Entropy.Probabilities.Table.{
  IsTable, build_rans_probability_table-ends, IsTable-EndsPositive,
}
use go_draco.Entropy.ProbabilityTable.Laws.{probs, probabilities_trip}
use go_draco.Core.Reader.{read_bytes_view, moved}
use go_draco.Entropy.RansEncoder
use go_draco.Entropy.SymbolCoding.Scratch.{
  Yields, Streams, compute_rans_precision_bits_bounds, Sound, Yields-bind, set_up-Streams,
  Yields-Reads,
}
use go_draco.Core.Varint.{decode_var_uint64}
use go_draco.Entropy.SymbolEncoding.{encode_with_table}
use go_draco.Entropy.RansDecoder.{RansSym, RansDecoder}
use go_draco.Core.Codec.{Reads, Writes, AtHand-moved, Writes-then}
use go_draco.Entropy.Probabilities.Frequencies.{IsRounding, length-valid_part}
use go_draco.Core.Writer.{Writer}
use go_draco.Entropy.Probabilities.{FloatOps, build_rans_probability_table}
use go_draco.Entropy.Rans.Lookup.{shares, sum}
use go_draco.Entropy.Symbols.{
  read_size, State, create_symbol_decoder, compute_rans_precision_bits, Scratch, set_up,
  read_probabilities,
}
use go_draco.Core.Reader.{remaining, remaining_bytes, Reader, AtHand, read_bytes_view}
use go_draco.Common.{
  ℕ, suc, ◌+◌, ◌^◌, ◌≤◌, ◌<◌, ◌≡◌, ◌⊎◌, refl, sym, ap, ◌∙◌, inl, inr, false, List, [], ◌∷◌, ◌++◌,
  append-nil, append_assoc, length, All, get_or, length-append, length-drop, arith, ltb, ge→ltb, M,
  Error, ok, err, ◌>>=◌, ◌>>◌, bind_ok, bind_err, on_left, on_right, invalid_rans_normalization,
}

-- An encoder that refuses, whatever the writer.
abbrev pub Refuses : Error → M Writer (Unit {0}) → Type 0
Refuses e m = (w : Writer) → (w' : Writer) × (m w ≡ (err e, w'))

remaining-at :
    (r : Reader) (bs rest : List ℕ) → AtHand bs rest r → remaining r ≡ length bs + length rest
unfolding remaining remaining_bytes
remaining-at r bs rest (v, h) =
    omega (arith, ap length h, length-drop r.pos r.buf, length-append bs rest)

-- A size with as many bytes after it.
sized-Yields :
    {B : Type 0} (cs payload : List ℕ) (k : List ℕ → M State B) (Q : B → Type 0)
    → Reads cs decode_var_uint64 (length payload)
    → Yields [] (k payload) Q
    → Yields
        (cs ++ payload)
        (on_left (read_size false) >>= λ size. on_left (read_bytes_view (ℤ.pos size)) >>= k)
        Q
unfolding read_size
sized-Yields cs payload k Q size h r s rest (at, e) v =
    let after = AtHand-moved r cs (payload ++ rest) (at, e ∙ append_assoc cs payload rest) in
    let room : ltb (remaining (moved (length cs) r)) (length payload) ≡ false =
      ge→ltb _ _ (omega (arith, remaining-at (moved (length cs) r) payload rest after)) in
    let sized : read_size false r ≡ (ok (length payload), moved (length cs) r) =
      bind_ok decode_var_uint64 _ r
        (size r (payload ++ rest) (at, e ∙ append_assoc cs payload rest))
      ∙ rw room refl in
    let more : AtHand (payload ++ []) rest (moved (length cs) r) =
      (after.0, after.1 ∙ ap (λ x. x ++ rest) (sym (append-nil payload))) in
    let (b, s', second, q, sound) =
      Yields-bind payload [] (on_left (read_bytes_view (ℤ.pos (length payload)))) k
        (λ x. x ≡ payload) Q (Yields-Reads payload _ payload (read_bytes_view-Reads payload))
        (λ a same. subst (λ x. Yields [] (k x) Q) (sym same) h) (moved (length cs) r) s rest more
        v in
    let total : r.pos + length cs + length (payload ++ []) ≡ r.pos + length (cs ++ payload) =
      omega (arith, length-append payload [], length-append cs payload) in
    (
      b,
      s',
      bind_ok (on_left (read_size false)) _ (r, s) (λ i. ((sized i).0, ((sized i).1, s)))
          ∙ second
          ∙ (λ i. (ok b, (record r { pos = total i }, s'))),
      q,
      sound,
    )

share-lt :
    (ps : List ℕ) (bound c : ℕ)
    → sum ps < bound
    → All (λ (s : RansSym). s.prob < bound) (shares c ps)
unfolding shares sum
share-lt [] bound c h = tt
share-lt (p ∷ ps) bound c h = (omega (arith, h), share-lt ps bound (c + p) (omega (arith, h)))

length-shares : (c : ℕ) (ps : List ℕ) → length (shares c ps) ≡ length ps
unfolding shares
length-shares c [] = refl
length-shares c (p ∷ ps) = ap suc (length-shares (c + p) ps)

probs-shares : (c : ℕ) (ps : List ℕ) → probs (shares c ps) ≡ ps
unfolding shares
probs-shares c [] = refl
probs-shares c (p ∷ ps) = ap (◌∷◌ p) (probs-shares (c + p) ps)

set_up-Yields :
    (bits : ℕ) (ps payload ss : List ℕ)
    → ((s : Scratch)
        → Sound s
        → (d : RansDecoder) × (s' : Scratch) × (set_up bits ps payload s ≡ (ok d, s'))
          × Streams bits ss d
          × Sound s')
    → Yields [] (on_right (set_up bits ps payload)) (Streams bits ss)
set_up-Yields bits ps payload ss serve r s rest at v =
    let (d, s', ends, reads, sound) = serve s v in
    (d, s', (λ i. ((ends i).0, (record r { pos = same i }, (ends i).1))), reads, sound)
  where
    same : r.pos ≡ r.pos + 0
    same = omega arith

module _ (ops : FloatOps) (frequencies ps ss : List ℕ) (n : ℕ)
    (t : IsTable frequencies (2 ^ compute_rans_precision_bits n) ps)
    (built : build_rans_probability_table ops frequencies (compute_rans_precision_bits n)
      ≡ ok (shares 0 ps))
    (few : length ss ≤ 2 ^ 27) (short : length frequencies ≤ 2 ^ 20)
    (positive : All (λ x. 0 < get_or ps x 0) ss) where
  table-trip :
      (bs : List ℕ) × Writes bs
        (encode_with_table ops frequencies (compute_rans_precision_bits n) ss)
      × Yields bs (create_symbol_decoder n false) (Streams (compute_rans_precision_bits n) ss)
  unfolding encode_with_table create_symbol_decoder
  table-trip =
      let bits = compute_rans_precision_bits n in
      let bounds = compute_rans_precision_bits_bounds n in
      let precision = pow-le-pow_right {n = 2} (omega arith) {i = bits} {j = 20} bounds.1 in
      let table = shares 0 ps in
      let count = length-shares 0 ps in
      let size : length table ≤ 2 ^ 20 =
        omega (arith, count, t.count, length-valid_part frequencies, short) in
      let (tbs, tw, tr) =
        probabilities_trip table (omega (arith, size))
          (IsTable-EndsPositive frequencies (2 ^ bits) ps t)
          (share-lt ps (2 ^ 22) 0 (omega (arith, t.total, precision))) (omega (arith, size)) in
      let (e, writes, serve) = set_up-Streams bits bounds.1 ps ss t.total positive in
      let payload = RansEncoder.bytes e in
      let (cs, cw, cr) =
        decode-encode_var_uint64 (length payload)
          (omega (arith, payload-length table ss bits e writes, few)) in
      (
        tbs ++ (cs ++ payload),
        rw (built, writes)
            (Writes-then tbs (cs ++ payload) tw
              (Writes-then cs payload cw (write_bytes-Writes payload))),
        Yields-bind tbs (cs ++ payload) (on_left (read_probabilities false)) _
            (λ x. x ≡ probs table) (Streams bits ss)
            (Yields-Reads tbs (read_probabilities false) (probs table) tr)
            (λ qs same_probs.
              sized-Yields cs payload (λ bytes. on_right (set_up bits qs bytes)) (Streams bits ss)
                cr (rw (same_probs ∙ probs-shares 0 ps) (set_up-Yields bits ps payload ss serve))),
      )

known_positive :
    (frequencies ps ss : List ℕ) (precision : ℕ)
    → IsTable frequencies precision ps
    → All (λ x. 0 < get_or frequencies x 0) ss
    → All (λ x. 0 < get_or ps x 0) ss
known_positive frequencies ps [] precision t h = tt
known_positive frequencies ps (s ∷ ss) precision t (h, hs) =
    (t.positive s h, known_positive frequencies ps ss precision t hs)

module _ (ops : FloatOps) (rounding : IsRounding ops) where
  -- The bytes of a table and of the symbols under it, and the decoder that they set up.
  pub encode_with_table-trip :
      (frequencies ss : List ℕ) (n : ℕ)
      → 0 < sum frequencies
      → length frequencies ≤ 2 ^ 20
      → sum frequencies < 2 ^ 64
      → All (λ x. 0 < get_or frequencies x 0) ss
      → length ss ≤ 2 ^ 27
      → Refuses invalid_rans_normalization
          (encode_with_table ops frequencies (compute_rans_precision_bits n) ss)
        ⊎ ((bs : List ℕ) × Writes bs
              (encode_with_table ops frequencies (compute_rans_precision_bits n) ss)
            × Yields bs
                (create_symbol_decoder n false)
                (Streams (compute_rans_precision_bits n) ss))
  unfolding encode_with_table create_symbol_decoder
  encode_with_table-trip frequencies ss n some_freq short no_wrap known few =
      let bits = compute_rans_precision_bits n in
      let small = (compute_rans_precision_bits_bounds n).1 in
      elim (build_rans_probability_table-ends ops rounding bits small frequencies some_freq short
        no_wrap) [
          | inl refused ↦ inl (λ w. rw refused (w, refl))
          | inr (ps, built, t) ↦ inr (
              table-trip ops frequencies ps ss n t built few short
                (known_positive frequencies ps ss (2 ^ bits) t known))
        ]

pub Refuses-then :
    (bs : List ℕ) (e : Error) (m k : M Writer (Unit {0}))
    → Writes bs m
    → Refuses e k
    → Refuses e (m >> k)
Refuses-then bs e m k h refuses w =
    let (w', ends) = refuses (record w { buf = w.buf ++ bs }) in
    (w', bind_ok m (λ u. k) w (h w) ∙ ends)

pub Refuses-first : (e : Error) (m k : M Writer (Unit {0})) → Refuses e m → Refuses e (m >> k)
Refuses-first e m k h w = let (w', ends) = h w in (w', bind_err m (λ u. k) w ends)
