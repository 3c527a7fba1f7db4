-- ===== src/Metadata/Codec/EntryTrip.antt =====
-- The loops over the entries of an element, written and read.
use mathlib.Core.Path.{subst}
use go_draco.Common.{
  ℕ, ◌+◌, ◌-◌, ◌^◌, ◌≤◌, ◌<◌, ◌≡◌, refl, sym, ap, ◌∙◌, false, List, [], ◌∷◌, ◌++◌, length, All,
  length-append, length-drop, arith, ge→ltb, M, Result, ok, ◌>>=◌, ◌>>◌, pure, ne→==_false,
}
use go_draco.Common.Int.{ℤ}
use go_draco.Core.Codec.{
  Writes, Writes-nil, Writes-then, Reads, Reads-bind, Reads-map, Reads-pure, RoundTrip,
  RoundTrip-then,
}
use go_draco.Core.Reader.{remaining, remaining_bytes, read_uint8, read_bytes, read_bytes_view}
use go_draco.Core.Reader.Laws.{read_uint8-Reads, read_bytes_view-Reads}
use go_draco.Core.Writer.{Writer}
use go_draco.Core.Writer.Laws.{write_uint8-Writes, write_bytes-Writes}
use go_draco.Core.Varint.{decode_var_uint32}
use go_draco.Core.Varint.Laws.{decode-encode_var_uint32}
use go_draco.Metadata.{Entry, contains, validate_entries}
use go_draco.Metadata.Entries.{first_checks}
use go_draco.Metadata.Codec.{
  lift, guard_uint32_len, guard_uint8_len, encode_key_value, encode_entry, encode_entries,
  check_entry, decode_entry, decode_entries,
}

-- A guard that passes writes nothing.
pub passed-Writes :
    (bs : List ℕ) (r : Result (Unit {0})) (k : M Writer (Unit {0}))
    → r ≡ ok tt
    → Writes bs k
    → Writes bs (lift r >> k)
passed-Writes bs r k pass p = subst (λ x. Writes bs (lift x >> k)) (sym pass) p

pub read_bytes-Reads : (bs : List ℕ) → Reads bs (read_bytes (ℤ.pos (length bs))) bs
unfolding read_bytes
read_bytes-Reads bs =
    Reads-map bs (read_bytes_view (ℤ.pos (length bs))) _ bs bs (read_bytes_view-Reads bs)
      (λ s. refl)

-- Values that have a length of 32 bits.
abbrev pub FitsWord : Entry → Type 0
FitsWord e = length e.value < 2 ^ 32

-- The rest of this section is about one entry that the checks accept.
module _ (seen : List (List ℕ)) (e : Entry) (short : length e.key ≤ 255)
    (some_value : 0 < length e.value) (new : contains e.key seen ≡ false) (small : FitsWord e) where
  check_entry-ok :
      (left : ℕ) → length e.value ≤ left → check_entry seen e.key (length e.value) left ≡ ok tt
  unfolding check_entry
  check_entry-ok left room =
      rw
        (
          ne→==_false (length e.value) 0 (λ z. omega (arith, z, some_value)),
          ge→ltb left (length e.value) room,
          new,
        )
        refl

  value-Reads :
      Reads e.value
        ((λ r. (ok (remaining r), r)) >>= λ left.
          lift (check_entry seen e.key (length e.value) left)
          >> (read_bytes (ℤ.pos (length e.value)) >>= λ value.
              pure (record { key = e.key; value = value })))
        e
  unfolding remaining remaining_bytes
  value-Reads r rest h =
      let left : length r.buf - r.pos ≡ length e.value + length rest =
        sym (length-drop r.pos r.buf) ∙ ap length h.1 ∙ length-append e.value rest in
      ap
        (λ (c : Result (Unit {0})).
          (lift c
              >> (read_bytes (ℤ.pos (length e.value)) >>= λ value.
                  pure (record { key = e.key; value = value })))
            r)
        (check_entry-ok (length r.buf - r.pos) (omega (arith, left)))
      ∙ Reads-map e.value (read_bytes (ℤ.pos (length e.value))) _ e.value e
          (read_bytes-Reads e.value) (λ s. refl) r rest h

  entry-RoundTrip : RoundTrip (encode_entry e) (decode_entry seen) e
  unfolding encode_entry encode_key_value decode_entry guard_uint8_len guard_uint32_len
  entry-RoundTrip =
      let (size, v, v') = decode-encode_var_uint32 (length e.value) small in
      let key_len : List ℕ = length e.key ∷ [] in
      (
        key_len ++ (e.key ++ (size ++ e.value)),
        rw
            (
              ne→==_false (length e.value) 0 (λ z. omega (arith, z, some_value)),
              ge→ltb 255 (length e.key) short,
              ge→ltb (2 ^ 32 - 1) (length e.value) (omega (arith, small)),
            )
            (Writes-then key_len (e.key ++ (size ++ e.value)) (write_uint8-Writes (length e.key)) (
              Writes-then e.key (size ++ e.value) (write_bytes-Writes e.key)
                (Writes-then size e.value v (write_bytes-Writes e.value)))),
        Reads-bind key_len (e.key ++ (size ++ e.value)) read_uint8 _ (length e.key) e
            (read_uint8-Reads (length e.key))
            (Reads-bind e.key (size ++ e.value) (read_bytes (ℤ.pos (length e.key))) _ e.key e
              (read_bytes-Reads e.key)
              (Reads-bind size e.value decode_var_uint32 _ (length e.value) e v' value-Reads)),
      )

-- For entries that Validate accepts after the keys `seen`, with values shorter than 2^32: the loop of
-- encodeElement over them succeeds, and the loop of decodeElement, for as many entries and with the
-- same keys seen, reads them back from exactly the bytes that were written.
pub decode_entries-encode_entries :
    (seen : List (List ℕ)) (es : List Entry)
    → validate_entries seen es ≡ ok tt
    → All FitsWord es
    → RoundTrip (encode_entries es) (decode_entries (length es) seen) es
unfolding encode_entries decode_entries
decode_entries-encode_entries seen [] h fits = ([], Writes-nil, Reads-pure [])
decode_entries-encode_entries seen (e ∷ es) h (small, fits) =
    let (short, some_value, new, rest) = first_checks seen e es h in
    let (bs, w, r) = decode_entries-encode_entries (e.key ∷ seen) es rest fits in
    RoundTrip-then (encode_entry e) (encode_entries es) (decode_entry seen) _ e (e ∷ es)
      (entry-RoundTrip seen e short some_value new small)
      (bs, w, Reads-map bs (decode_entries (length es) (e.key ∷ seen)) _ es (e ∷ es) r (λ s. refl))
