-- ===== src/Nanopb/Encode/Fields.antt =====
-- ios/Pods/nanopb/pb_encode.c: the encoders of the single data types, and the tag of a field.
use spar_somnong.Common.{
  ℕ, zero, suc, ◌+◌, ◌-◌, ◌*◌, ◌^◌, Bool, ◌&&◌, ◌||◌, [], ltb, ◌==◌, if◌then◌else◌, fault,
}
use spar_somnong.Nanopb.Types.{
  PbField, u64, invalid_data_size, bytes_size_exceeded, invalid_field_type, wt_varint, wt_64bit,
  wt_string, wt_32bit, pb_ltype, pb_atype, sign_extend,
}
use spar_somnong.Nanopb.Ltype
use spar_somnong.Nanopb.Atype
use spar_somnong.Nanopb.Memory.{Memory, load, load_size, load_bytes, bytes_array_bytes}
use spar_somnong.Nanopb.Ostream.{
  Encoder, raise, pb_encode_varint, pb_encode_svarint, pb_encode_fixed32, pb_encode_fixed64,
  pb_encode_tag, pb_encode_string,
}

-- A field and the address of its data.
abbrev pub FieldEncoder : Type 0
FieldEncoder = PbField → ℕ → Encoder

abbrev pub is_integer_size : ℕ → Bool
is_integer_size n = n == 1 || (n == 2 || (n == 4 || n == 8))

-- `strnlen`, written as a loop.
unfoldable pub string_size : Memory → ℕ → ℕ → ℕ
string_size mem zero p = 0
string_size mem (suc max_size) p =
    let more = suc (string_size mem max_size (p + 1)) in if load mem 1 p == 0 then 0 else more

module _ (mem : Memory) where
  unfoldable pub pb_enc_varint : FieldEncoder
  pb_enc_varint field src =
      if is_integer_size field.data_size
      then pb_encode_varint (u64 (sign_extend (field.data_size * 8) (load mem field.data_size src)))
      else raise invalid_data_size

  unfoldable pub pb_enc_uvarint : FieldEncoder
  pb_enc_uvarint field src =
      if is_integer_size field.data_size
      then pb_encode_varint (load mem field.data_size src)
      else raise invalid_data_size

  unfoldable pub pb_enc_svarint : FieldEncoder
  pb_enc_svarint field src =
      if is_integer_size field.data_size
      then pb_encode_svarint
          (u64 (sign_extend (field.data_size * 8) (load mem field.data_size src)))
      else raise invalid_data_size

  unfoldable pub pb_enc_fixed32 : FieldEncoder
  pb_enc_fixed32 field src = pb_encode_fixed32 (load mem 4 src)

  unfoldable pub pb_enc_fixed64 : FieldEncoder
  pb_enc_fixed64 field src = pb_encode_fixed64 (load mem 8 src)

  unfoldable pub pb_enc_bytes : FieldEncoder
  pb_enc_bytes field src =
      let size = load_size mem src in
      if src == 0
      then pb_encode_string [] 0
      else (if pb_atype field.type == Atype.static && ltb field.data_size (size + bytes_array_bytes)
          then raise bytes_size_exceeded
          else pb_encode_string (load_bytes mem size (src + bytes_array_bytes)) size)

  unfoldable pub pb_enc_string : FieldEncoder
  pb_enc_string field src =
      let max_size = if pb_atype field.type == Atype.pointer then 2 ^ 64 - 1 else field.data_size in
      let size = if src == 0 then 0 else string_size mem max_size src in
      pb_encode_string (load_bytes mem size src) size

  unfoldable pub pb_enc_fixed_length_bytes : FieldEncoder
  pb_enc_fixed_length_bytes field src =
      pb_encode_string (load_bytes mem field.data_size src) field.data_size

  -- PB_ENCODERS without its entry for submessages. Extensions have a null entry, and nothing
  -- stands behind the table.
  unfoldable pub enc_scalar : ℕ → FieldEncoder
  enc_scalar ltype =
      if ltype == Ltype.varint
      then pb_enc_varint
      else (if ltype == Ltype.uvarint
          then pb_enc_uvarint
          else (if ltype == Ltype.svarint
              then pb_enc_svarint
              else (if ltype == Ltype.fixed32
                  then pb_enc_fixed32
                  else (if ltype == Ltype.fixed64
                      then pb_enc_fixed64
                      else (if ltype == Ltype.bytes
                          then pb_enc_bytes
                          else (if ltype == Ltype.string
                              then pb_enc_string
                              else (if ltype == Ltype.fixed_length_bytes
                                  then pb_enc_fixed_length_bytes
                                  else (λ field src s. (fault, s)))))))))

unfoldable pub pb_encode_tag_for_field : PbField → Encoder
pb_encode_tag_for_field field =
    let ltype = pb_ltype field.type in
    if ltype == Ltype.varint || (ltype == Ltype.uvarint || ltype == Ltype.svarint)
    then pb_encode_tag wt_varint field.tag
    else (if ltype == Ltype.fixed32
        then pb_encode_tag wt_32bit field.tag
        else (if ltype == Ltype.fixed64
            then pb_encode_tag wt_64bit field.tag
            else (if ltype == Ltype.bytes
                  || (ltype == Ltype.string
                      || (ltype == Ltype.submessage || ltype == Ltype.fixed_length_bytes))
                then pb_encode_tag wt_string field.tag
                else raise invalid_field_type)))
