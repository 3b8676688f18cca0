-- ===== src/Nanopb/Decode/Numbers.antt =====
-- ios/Pods/nanopb/pb_decode.c: the decoders of fields that hold a number.
use spar_somnong.Common.{ℕ, ◌*◌, ◌%◌, ◌^◌, Bool, true, false, ◌==◌, if◌then◌else◌, ◌>>=◌}
use spar_somnong.Nanopb.Types.{PbField, u32, u64, sign_extend, invalid_data_size, integer_too_large}
use spar_somnong.Nanopb.Istream.Varints.{pb_decode_varint}
use spar_somnong.Nanopb.Istream.Values.{pb_decode_svarint, pb_decode_fixed32, pb_decode_fixed64}
use spar_somnong.Nanopb.Encode.Fields.{is_integer_size}
use spar_somnong.Nanopb.Decode.Target.{FieldAction, on_stream, refuse, store, assign}

-- A field and the address of its data.
abbrev pub FieldDecoder : Type 0
FieldDecoder = PbField → ℕ → FieldAction (Unit {0})

-- `clamped` is what the assignment left; a value that does not fit has been stored all the same.
abbrev pub stored_whole : Bool → ℕ → ℕ → ℕ → FieldAction (Unit {0})
stored_whole true size dest value t = assign size dest value t
stored_whole false size dest value t =
    refuse integer_too_large (record t { memory = store t.memory size dest value })

unfoldable pub put_signed : ℕ → ℕ → ℕ → FieldAction (Unit {0})
put_signed size dest svalue =
    let clamped = u64 (sign_extend (size * 8) (svalue % 2 ^ (size * 8))) in
    if is_integer_size size
    then stored_whole (clamped == svalue) size dest svalue
    else refuse invalid_data_size

unfoldable pub put_unsigned : ℕ → ℕ → ℕ → FieldAction (Unit {0})
put_unsigned size dest value =
    let clamped = value % 2 ^ (size * 8) in
    if is_integer_size size
    then stored_whole (clamped == value) size dest value
    else refuse invalid_data_size

-- The bit pattern of `svalue`: fields of up to 32 bits take the low 32 bits of the varint.
unfoldable pub dec_varint_value : ℕ → ℕ → ℕ
dec_varint_value data_size value = if data_size == 8 then value else sign_extend 32 (u32 value)

unfoldable pub pb_dec_varint : FieldDecoder
pb_dec_varint field dest = do
  value ← on_stream pb_decode_varint
  put_signed field.data_size dest (dec_varint_value field.data_size value)

unfoldable pub pb_dec_uvarint : FieldDecoder
pb_dec_uvarint field dest = do
  value ← on_stream pb_decode_varint
  put_unsigned field.data_size dest value

unfoldable pub pb_dec_svarint : FieldDecoder
pb_dec_svarint field dest = do
  value ← on_stream pb_decode_svarint
  put_signed field.data_size dest value

unfoldable pub pb_dec_fixed32 : FieldDecoder
pb_dec_fixed32 field dest = do value ← on_stream pb_decode_fixed32; assign 4 dest value

unfoldable pub pb_dec_fixed64 : FieldDecoder
pb_dec_fixed64 field dest = do value ← on_stream pb_decode_fixed64; assign 8 dest value
