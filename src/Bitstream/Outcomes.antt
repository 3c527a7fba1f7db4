-- ===== src/Bitstream/Outcomes.antt =====
-- What DecodeHeader does on every input.
use go_draco.Common.{
  ℕ, zero, suc, ◌+◌, ◌*◌, ◌/◌, ◌%◌, ◌<◌, ◌≡◌, ◌≢◌, ◌⊎◌, refl, sym, ap, ◌∙◌, inl, inr, true, false,
  not, Bool-cases, List, [], ◌∷◌, ◌++◌, append-nil, length, All, take, drop, length-append,
  length-drop, arith, ltb, if◌then◌else◌, ltb→lt, ltb→ge, lt→ltb, M, ok, err, ◌>>=◌, fail, bind_ok,
  slices_equal, slices_equal→eq, length-take, unexpected_eof,
}
use mathlib.Core.Path.{subst}
use go_draco.Common.Int.{ℤ}
use go_draco.Core.Words.{le_bytes, little_endian, IsByte}
use go_draco.Core.Reader.{
  Reader, AtHand, moved, remaining_bytes, read_bytes_view, read_uint8, read_uint16, read_word,
  IsValid,
}
use go_draco.Core.Reader.Laws.{read_bytes_view-Reads, read_uint8-Reads, read_word-Reads}
use go_draco.Core.Writer.Laws.{write_bytes-Writes, write_uint8-Writes, write_uint16-Writes}
use go_draco.Core.Codec.{Writes, Writes-then, Reads, Reads-bind, Reads-map, AtHand-moved}
use go_draco.Bitstream.{
  Header, magic, decode_header, decode_header_fields, encode_header, ok, invalid_magic,
}

-- Where only `ys` is left, the reads run out of bytes.
abbrev RunsOut : {A : Type 0} → M Reader A → List ℕ → Type 0
RunsOut m ys = (r : Reader) → AtHand ys [] r → (r' : Reader) × (m r ≡ (err unexpected_eof, r'))

left_of : (ys : List ℕ) (r : Reader) → AtHand ys [] r → length r.buf ≡ r.pos + length ys
unfolding remaining_bytes
left_of ys r (v, h) = omega (arith, v, length-drop r.pos r.buf, ap length (h ∙ append-nil ys))

RunsOut-uint8 : {A : Type 0} (f : ℕ → M Reader A) → RunsOut (read_uint8 >>= f) []
unfolding read_uint8
RunsOut-uint8 f r h =
    let over : ltb (length r.buf) (r.pos + 1) ≡ true = lt→ltb _ _ (omega (arith, left_of [] r h)) in
    (r, rw over refl)

RunsOut-uint16 :
    {A : Type 0} (f : ℕ → M Reader A) (ys : List ℕ) → length ys < 2 → RunsOut (read_uint16 >>= f) ys
unfolding read_uint16 read_word
RunsOut-uint16 f ys few r h =
    let over : ltb (length r.buf) (r.pos + 2) ≡ true =
      lt→ltb _ _ (omega (arith, left_of ys r h, few)) in
    (r, rw over refl)

RunsOut-then :
    {A : Type 0} (f : ℕ → M Reader A) (y : ℕ) (ys : List ℕ)
    → RunsOut (f y) ys
    → RunsOut (read_uint8 >>= f) (y ∷ ys)
RunsOut-then f y ys later r h =
    let (r', e) = later (moved 1 r) (one_on h) in
    (r', bind_ok read_uint8 f r (read_uint8-Reads y r (ys ++ []) h) ∙ e)
  where
    one_on : AtHand (y ∷ ys) [] r → AtHand ys [] (moved 1 r)
    one_on (v, k) = let after = AtHand-moved r (y ∷ []) (ys ++ []) (v, k) in after

fields-RunsOut : (ys : List ℕ) → length ys < 6 → RunsOut decode_header_fields ys
unfolding decode_header_fields
fields-RunsOut [] few = RunsOut-uint8 _
fields-RunsOut (a ∷ []) few = RunsOut-then _ a [] (RunsOut-uint8 _)
fields-RunsOut (a ∷ b ∷ []) few = RunsOut-then _ a (b ∷ []) (RunsOut-then _ b [] (RunsOut-uint8 _))
fields-RunsOut (a ∷ b ∷ c ∷ []) few =
    RunsOut-then _ a (b ∷ c ∷ [])
      (RunsOut-then _ b (c ∷ []) (RunsOut-then _ c [] (RunsOut-uint8 _)))
fields-RunsOut (a ∷ b ∷ c ∷ d ∷ ys) few = RunsOut-then _ a (b ∷ c ∷ d ∷ ys) (
    RunsOut-then _ b (c ∷ d ∷ ys)
      (RunsOut-then _ c (d ∷ ys) (RunsOut-then _ d ys (RunsOut-uint16 _ ys (omega (arith, few))))))

-- The header of six bytes after the magic.
module _ (a b c d e f : ℕ) where
  abbrev found : Header
  found = record {
    version_major = a;
    version_minor = b;
    encoder_type = c;
    encoder_method = d;
    flags = little_endian (e ∷ f ∷ []);
  }

  abbrev header_bytes : List ℕ
  header_bytes = magic ++ (a ∷ b ∷ c ∷ d ∷ e ∷ f ∷ [])

  header-Reads : Reads header_bytes decode_header found
  unfolding decode_header decode_header_fields read_uint16
  header-Reads =
      Reads-bind magic (a ∷ b ∷ c ∷ d ∷ e ∷ f ∷ []) (read_bytes_view (ℤ.pos 5)) _ magic found
        (read_bytes_view-Reads magic)
        (Reads-bind (a ∷ []) (b ∷ c ∷ d ∷ e ∷ f ∷ []) read_uint8 _ a found (read_uint8-Reads a) (
          Reads-bind (b ∷ []) (c ∷ d ∷ e ∷ f ∷ []) read_uint8 _ b found (read_uint8-Reads b) (
            Reads-bind (c ∷ []) (d ∷ e ∷ f ∷ []) read_uint8 _ c found (read_uint8-Reads c) (
              Reads-bind (d ∷ []) (e ∷ f ∷ []) read_uint8 _ d found (read_uint8-Reads d) (
                Reads-map (e ∷ f ∷ []) (read_word 2) _ (little_endian (e ∷ f ∷ [])) found
                  (read_word-Reads (e ∷ f ∷ [])) (λ s. refl))))))

  flags_bytes : IsByte e → IsByte f → le_bytes 2 (little_endian (e ∷ f ∷ [])) ≡ e ∷ f ∷ []
  unfolding le_bytes little_endian
  flags_bytes he hf = λ i. (low i ∷ high i ∷ [])
    where
      low : (e + 256 * (f + 256 * 0)) % 256 ≡ e
      low = omega (arith, he, hf)

      high : (e + 256 * (f + 256 * 0)) / 256 % 256 ≡ f
      high = omega (arith, he, hf)

  header-Writes : IsByte e → IsByte f → Writes header_bytes (encode_header found)
  unfolding encode_header
  header-Writes he hf =
      subst (λ l. Writes (magic ++ (a ∷ b ∷ c ∷ d ∷ l)) (encode_header found)) (flags_bytes he hf)
        (Writes-then magic (a ∷ b ∷ c ∷ d ∷ word) (write_bytes-Writes magic) (
          Writes-then (a ∷ []) (b ∷ c ∷ d ∷ word) (write_uint8-Writes a) (
            Writes-then (b ∷ []) (c ∷ d ∷ word) (write_uint8-Writes b) (
              Writes-then (c ∷ []) (d ∷ word) (write_uint8-Writes c) (
                Writes-then (d ∷ []) word (write_uint8-Writes d)
                  (write_uint16-Writes (little_endian (e ∷ f ∷ []))))))))
    where
      word : List ℕ
      word = le_bytes 2 (little_endian (e ∷ f ∷ []))

-- A header comes next: EncodeHeader writes these eleven bytes for it.
abbrev pub Accepted : Reader → Type 0
Accepted r =
    (h : Header) × (bs rest : List ℕ) × (length bs ≡ 11)
    × (remaining_bytes r ≡ bs ++ rest)
    × Writes bs (encode_header h)
    × (decode_header r ≡ (ok h, moved 11 r))

-- Five other bytes come next.
abbrev pub BadMagic : Reader → Type 0
BadMagic r =
    (bs rest : List ℕ) × (length bs ≡ 5)
    × (bs ≢ magic)
    × (remaining_bytes r ≡ bs ++ rest)
    × (decode_header r ≡ (err invalid_magic, moved 5 r))

-- Too few bytes are left.
abbrev pub TooShort : Reader → Type 0
TooShort r =
    (length (remaining_bytes r) < 11) × (r' : Reader) × (decode_header r ≡ (err unexpected_eof, r'))

split_at : (n : ℕ) (xs : List ℕ) → xs ≡ take n xs ++ drop n xs
split_at zero xs = refl
split_at (suc n) [] = refl
split_at (suc n) (x ∷ xs) = ap (◌∷◌ x) (split_at n xs)

module _ (r : Reader) (v : IsValid r) where
  no_magic : length (remaining_bytes r) < 5 → TooShort r
  unfolding decode_header read_bytes_view remaining_bytes
  no_magic few =
      let over : ltb (length r.buf) (r.pos + 5) ≡ true =
        lt→ltb _ _ (omega (arith, few, length-drop r.pos r.buf)) in
      (omega (arith, few), r, rw over refl)

  -- The first five bytes are read.
  magic_read :
      (bs rest : List ℕ)
      → length bs ≡ 5
      → remaining_bytes r ≡ bs ++ rest
      → decode_header r
        ≡ (if not (slices_equal bs magic) then fail invalid_magic else decode_header_fields)
            (moved 5 r)
  unfolding decode_header
  magic_read bs rest five e = bind_ok (read_bytes_view (ℤ.pos 5)) _ r (
      subst (λ n. read_bytes_view (ℤ.pos n) r ≡ (ok bs, moved n r)) five
        (read_bytes_view-Reads bs r rest (v, e)))

  other_magic :
      (bs rest : List ℕ)
      → length bs ≡ 5
      → slices_equal bs magic ≡ false
      → remaining_bytes r ≡ bs ++ rest
      → BadMagic r
  other_magic bs rest five differs e =
      (bs, rest, five, apart, e, magic_read bs rest five e ∙ rw differs refl)
    where
      apart : bs ≢ magic
      apart same =
          let equal : slices_equal bs magic ≡ true = rw same refl in ground (arith, equal, differs)

  fields_missing : (ys : List ℕ) → length ys < 6 → remaining_bytes r ≡ magic ++ ys → TooShort r
  fields_missing ys few e =
      let at : AtHand magic (ys ++ []) r = (v, e ∙ ap (λ l. magic ++ l) (sym (append-nil ys))) in
      let (r', out) = fields-RunsOut ys few (moved 5 r) (AtHand-moved r magic (ys ++ []) at) in
      (
        omega (arith, few, ap length e, length-append magic ys),
        r',
        magic_read magic ys refl e ∙ out,
      )

  after_magic :
      (ys : List ℕ) → All IsByte ys → remaining_bytes r ≡ magic ++ ys → Accepted r ⊎ TooShort r
  after_magic [] bytes at = inr (fields_missing [] (omega arith) at)
  after_magic (a ∷ []) bytes at = inr (fields_missing (a ∷ []) (omega arith) at)
  after_magic (a ∷ b ∷ []) bytes at = inr (fields_missing (a ∷ b ∷ []) (omega arith) at)
  after_magic (a ∷ b ∷ c ∷ []) bytes at = inr (fields_missing (a ∷ b ∷ c ∷ []) (omega arith) at)
  after_magic (a ∷ b ∷ c ∷ d ∷ []) bytes at =
      inr (fields_missing (a ∷ b ∷ c ∷ d ∷ []) (omega arith) at)
  after_magic (a ∷ b ∷ c ∷ d ∷ e ∷ []) bytes at =
      inr (fields_missing (a ∷ b ∷ c ∷ d ∷ e ∷ []) (omega arith) at)
  after_magic (a ∷ b ∷ c ∷ d ∷ e ∷ f ∷ zs) (ha, (hb, (hc, (hd, (he, (hf, hs)))))) at = inl (
    found a b c d e f,
    header_bytes a b c d e f,
    zs,
    refl,
    at,
    header-Writes a b c d e f he hf,
    header-Reads a b c d e f r zs (v, at),
  )

All-drop : (n : ℕ) (xs : List ℕ) → All IsByte xs → All IsByte (drop n xs)
All-drop zero xs h = h
All-drop (suc n) [] h = h
All-drop (suc n) (x ∷ xs) (h, hs) = All-drop n xs hs

-- On the bytes that are left in a reader, DecodeHeader has one of three outcomes. Either the first
-- eleven are what EncodeHeader writes for the header that it returns, and the cursor stands behind
-- them; or the first five are not the magic, the error is that for bad magic, and the cursor stands
-- behind these five; or fewer than eleven are left and the error is that for the end of the data.
pub decode_header-outcomes :
    (r : Reader) → IsValid r → All IsByte (remaining_bytes r) → Accepted r ⊎ BadMagic r ⊎ TooShort r
decode_header-outcomes r v bytes =
    let xs = remaining_bytes r in
    elim (Bool-cases (ltb (length xs) 5)) [
      | inl few ↦ inr (inr (no_magic r v (ltb→lt _ _ few)))
      | inr enough ↦
          let five : length (take 5 xs) ≡ 5 = length-take 5 xs (ltb→ge _ _ enough) in
          elim (Bool-cases (slices_equal (take 5 xs) magic)) [
            | inr differs ↦
                inr (inl (other_magic r v (take 5 xs) (drop 5 xs) five differs (split_at 5 xs)))
            | inl same ↦
                let magic_first : xs ≡ magic ++ drop 5 xs =
                  split_at 5 xs
                  ∙ ap (λ l. l ++ drop 5 xs) (slices_equal→eq (take 5 xs) magic same) in
                elim (after_magic r v (drop 5 xs) (All-drop 5 xs bytes) magic_first) [
                  | inl accepted ↦ inl accepted
                  | inr short ↦ inr (inr short)
                ]
          ]
    ]
