-- ===== src/Metadata/Codec/ElementTrip.antt =====
-- Elements with their children, and the metadata of a geometry, written and read.
use mathlib.Core.Path.{subst}
use go_draco.Common.{
  ℕ, zero, suc, ◌+◌, ◌-◌, ◌*◌, ◌^◌, ◌≤◌, ◌<◌, ◌≡◌, refl, sym, ap, ◌∙◌, Bool, false, List, [], ◌∷◌,
  ◌++◌, length, All, length-append, length-drop, arith, ltb, if◌then◌else◌, ltb→ge, ge→ltb, M,
  Result, ok, err, ◌>>=◌, ◌>>◌, pure, metadata_key_length, duplicate_metadata_key,
  metadata_exceeds_buffer,
}
use go_draco.Common.Int.{ℤ}
use go_draco.Core.Codec.{
  Writes, Writes-nil, Writes-then, Reads, Reads-bind, Reads-map, Reads-pure, RoundTrip,
}
use go_draco.Core.Reader.{Reader, remaining, remaining_bytes, read_uint8, read_bytes}
use go_draco.Core.Reader.Laws.{read_uint8-Reads}
use go_draco.Core.Writer.Laws.{write_uint8-Writes, write_bytes-Writes}
use go_draco.Core.Varint.{decode_var_uint32}
use go_draco.Core.Varint.Laws.{decode-encode_var_uint32}
use go_draco.Metadata.{
  Entry, Element, element, Children, no_children, child, contains, validate, validate_entries,
  validate_children,
}
use go_draco.Metadata.Entries.{guarded, both_ok}
use go_draco.Metadata.Codec.{
  lift, guard_uint32_len, guard_uint8_len, decode_entries, count_children, encode_element,
  encode_children, guarded_slice_len, decode_element, decode_children,
}
use go_draco.Metadata.Codec.EntryTrip.{
  passed-Writes, read_bytes-Reads, FitsWord, decode_entries-encode_entries,
}

-- The element is nested less deep than `levels`, and its slices are as small as the decoder allows.
unfoldable mutual
  pub IsStorable : ℕ → Element → Type 0
  IsStorable zero e = ⊥
  IsStorable (suc levels) (element es cs) =
      All FitsWord es
      × (length es * 40 ≤ 2 ^ 29)
      × (count_children cs * 64 ≤ 2 ^ 29)
      × AllStorable levels cs

  AllStorable : ℕ → Children → Type 0
  AllStorable levels no_children = Unit {0}
  AllStorable levels (child k e cs) = IsStorable levels e × AllStorable levels cs

pub passed-Reads :
    {A B : Type 0} (bs : List ℕ) (r : Result A) (k : M Reader B) (a : A) (b : B)
    → r ≡ ok a
    → Reads bs k b
    → Reads bs (lift r >> k) b
passed-Reads bs r k a b pass p = subst (λ x. Reads bs (lift x >> k) b) (sym pass) p

guard-short : (n : ℕ) → n ≤ 255 → guard_uint8_len n ≡ ok tt
unfolding guard_uint8_len
guard-short n h = rw (ge→ltb 255 n h) refl

pub guard-word : (n : ℕ) → n < 2 ^ 32 → guard_uint32_len n ≡ ok tt
unfolding guard_uint32_len
guard-word n h = rw (ge→ltb (2 ^ 32 - 1) n (omega (arith, h))) refl

pub slice_allowed : (n size : ℕ) → n * size ≤ 2 ^ 29 → guarded_slice_len n size ≡ ok n
unfolding guarded_slice_len
slice_allowed n size h = rw (ge→ltb (2 ^ 29) (n * size) h) refl

-- The children take a byte each at least, which the decoder checks before it makes the slice.
abbrev ChildrenTrip : ℕ → List (List ℕ) → Children → Type 0
ChildrenTrip levels seen cs =
    (bs : List ℕ) × Writes bs (encode_children cs)
    × Reads bs (decode_children (decode_element levels) (count_children cs) seen) cs
    × (count_children cs ≤ length bs)

counted-Reads :
    (bs : List ℕ) (n : ℕ) (k : M Reader Children) (es : List Entry) (cs : Children)
    → n ≤ length bs
    → Reads bs k cs
    → Reads bs
        ((λ r. (ok (remaining r), r)) >>= λ left.
          lift (if ltb left n then err metadata_exceeds_buffer else ok tt)
          >> (k >>= λ cs. pure (element es cs)))
        (element es cs)
unfolding remaining remaining_bytes
counted-Reads bs n k es cs few p r rest h =
    let left : length r.buf - r.pos ≡ length bs + length rest =
      sym (length-drop r.pos r.buf) ∙ ap length h.1 ∙ length-append bs rest in
    ap
      (λ (b : Bool).
        (lift (if b then err metadata_exceeds_buffer else ok tt)
            >> (k >>= λ cs. pure (element es cs)))
          r)
      (ge→ltb (length r.buf - r.pos) n (omega (arith, left, few)))
    ∙ Reads-map bs k _ cs (element es cs) p (λ s. refl) r rest h

-- What Validate has shown of the first child.
first_child :
    (seen : List (List ℕ)) (k : List ℕ) (e : Element) (cs : Children)
    → validate_children seen (child k e cs) ≡ ok tt
    → (length k ≤ 255)
      × (contains k seen ≡ false)
      × (validate e ≡ ok tt)
      × (validate_children (k ∷ seen) cs ≡ ok tt)
unfolding validate
first_child seen k e cs h =
    let (a, h1) = guarded (ltb 255 (length k)) metadata_key_length _ h in
    let (b, h2) = guarded (contains k seen) duplicate_metadata_key _ h1 in
    let (c, d) = both_ok (validate e) (validate_children (k ∷ seen) cs) h2 in
    (ltb→ge 255 (length k) a, b, c, d)

mutual
  unfolding IsStorable encode_element decode_element validate decode_children count_children

  pub decode-encode_element :
      (levels : ℕ) (e : Element)
      → validate e ≡ ok tt
      → IsStorable levels e
      → RoundTrip (encode_element e) (decode_element levels) e
  decode-encode_element zero (element es cs) valid store = absurd store
  decode-encode_element (suc levels) (element es cs) valid (words, few, few_children, stored) =
      let (valid_entries, valid_children) =
        both_ok (validate_entries [] es) (validate_children [] cs) valid in
      let (n, nw, nr) = decode-encode_var_uint32 (length es) (omega (arith, few)) in
      let (m, mw, mr) =
        decode-encode_var_uint32 (count_children cs) (omega (arith, few_children)) in
      let (b, bw, br) = decode_entries-encode_entries [] es valid_entries words in
      let (c, cw, cr, enough) = children-trip levels [] cs valid_children stored in
      (
        n ++ (b ++ (m ++ c)),
        passed-Writes (n ++ (b ++ (m ++ c))) (guard_uint32_len (length es)) _
            (guard-word (length es) (omega (arith, few)))
            (Writes-then n (b ++ (m ++ c)) nw (
              Writes-then b (m ++ c) bw (
                passed-Writes (m ++ c) (guard_uint32_len (count_children cs)) _
                  (guard-word (count_children cs) (omega (arith, few_children)))
                  (Writes-then m c mw cw)))),
        Reads-bind n (b ++ (m ++ c)) decode_var_uint32 _ (length es) (element es cs) nr (
            passed-Reads (b ++ (m ++ c)) (guarded_slice_len (length es) 40) _ (length es)
              (element es cs) (slice_allowed (length es) 40 few)
              (Reads-bind b (m ++ c) (decode_entries (length es) []) _ es (element es cs) br (
                Reads-bind m c decode_var_uint32 _ (count_children cs) (element es cs) mr (
                  passed-Reads c (guarded_slice_len (count_children cs) 64) _ (count_children cs)
                    (element es cs) (slice_allowed (count_children cs) 64 few_children)
                    (counted-Reads c (count_children cs)
                      (decode_children (decode_element levels) (count_children cs) []) es cs enough
                      cr))))),
      )

  children-trip :
      (levels : ℕ) (seen : List (List ℕ)) (cs : Children)
      → validate_children seen cs ≡ ok tt
      → AllStorable levels cs
      → ChildrenTrip levels seen cs
  children-trip levels seen no_children valid stored =
      ([], Writes-nil, Reads-pure no_children, omega arith)
  children-trip levels seen (child k e cs) valid (store, stored) =
      let (short, new, inner, rest) = first_child seen k e cs valid in
      let (b, bw, br) = decode-encode_element levels e inner store in
      let (c, cw, cr, enough) = children-trip levels (k ∷ seen) cs rest stored in
      let key_len : List ℕ = length k ∷ [] in
      (
        key_len ++ (k ++ (b ++ c)),
        passed-Writes (key_len ++ (k ++ (b ++ c))) (guard_uint8_len (length k)) _
            (guard-short (length k) short)
            (Writes-then key_len (k ++ (b ++ c)) (write_uint8-Writes (length k))
              (Writes-then k (b ++ c) (write_bytes-Writes k) (Writes-then b c bw cw))),
        Reads-bind key_len (k ++ (b ++ c)) read_uint8 _ (length k) (child k e cs)
            (read_uint8-Reads (length k))
            (Reads-bind k (b ++ c) (read_bytes (ℤ.pos (length k))) _ k (child k e cs)
              (read_bytes-Reads k)
              (passed-Reads (b ++ c) (if contains k seen then err duplicate_metadata_key else ok tt)
                _ tt (child k e cs) (rw new refl)
                (Reads-bind b c (decode_element levels) _ e (child k e cs) br (
                  Reads-map c
                    (decode_children (decode_element levels) (count_children cs) (k ∷ seen)) _ cs
                    (child k e cs) cr (λ s. refl))))),
        omega (arith, length-append k (b ++ c), length-append b c, enough),
      )
