-- ===== src/Core/Varint/Tests.antt =====
-- Concrete runs of the varints, and their theorems at concrete inputs.
use go_draco.Common.{◌≡◌, refl, [], ◌∷◌, ok, err, arith, invalid_uint32_varint}
use go_draco.Common.Int.{negsuc}
use go_draco.Core.Codec.{RoundTrip}
use go_draco.Core.Reader.{new_reader, read_uint8}
use go_draco.Core.Writer.{new_writer, write_uint8}
use go_draco.Core.Varint.{
  encode_var_loop, encode_var_uint32, decode_var_loop, decode_var_uint32, encode_var_uint64,
  decode_var_uint64, encode_var_int32, decode_var_int32,
}
use go_draco.Core.Varint.Laws.{
  decode-encode_var_uint32, decode-encode_var_uint64, decode-encode_var_int32,
}

encode_300 : encode_var_uint32 300 (new_writer 0) ≡ (ok tt, record { buf = 0xac ∷ 2 ∷ [] })
unfolding encode_var_uint32 encode_var_loop write_uint8 new_writer
encode_300 = refl

decode_overlong :
    (decode_var_uint32 (new_reader (0x80 ∷ 0x80 ∷ 0x80 ∷ 0x80 ∷ 0x80 ∷ []))).0
    ≡ err invalid_uint32_varint
unfolding decode_var_uint32 decode_var_loop read_uint8 new_reader
decode_overlong = refl

decode-encode_var_uint32_example : RoundTrip (encode_var_uint32 300) decode_var_uint32 300
decode-encode_var_uint32_example = decode-encode_var_uint32 300 (omega arith)

decode-encode_var_uint64_example :
    RoundTrip (encode_var_uint64 0xffff_ffff_ffff_ffff) decode_var_uint64 0xffff_ffff_ffff_ffff
decode-encode_var_uint64_example = decode-encode_var_uint64 0xffff_ffff_ffff_ffff (omega arith)

decode-encode_var_int32_example :
    RoundTrip (encode_var_int32 (negsuc 16383)) decode_var_int32 (negsuc 16383)
decode-encode_var_int32_example = decode-encode_var_int32 (negsuc 16383) (omega arith)
