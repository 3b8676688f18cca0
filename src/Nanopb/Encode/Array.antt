-- ===== src/Nanopb/Encode/Array.antt =====
-- ios/Pods/nanopb/pb_encode.c: submessages and arrays. `encode` stands for the recursive call of
-- `pb_encode`, on the address of a descriptor array and the address of a message.
use spar_somnong.Common.{
  ℕ, zero, suc, ◌+◌, ◌*◌, not, ◌&&◌, ◌||◌, [], ltb, leb, ◌==◌, if◌then◌else◌, Outcome, ok, failed,
  fault, out_of_fuel, return, ◌>>◌, none,
}
use spar_somnong.Nanopb.Types.{
  PbField, u64, stream_full, array_max_size_exceeded, submsg_size_changed, invalid_field_descriptor,
  wt_string, pb_ltype, pb_atype,
}
use spar_somnong.Nanopb.Ltype
use spar_somnong.Nanopb.Atype
use spar_somnong.Nanopb.Memory.{Memory, load_pointer}
use spar_somnong.Nanopb.Ostream.{
  Ostream, Encoder, raise, is_null, pb_ostream_sizing, pb_write, pb_encode_varint, pb_encode_tag,
}
use spar_somnong.Nanopb.Encode.Fields.{FieldEncoder, enc_scalar, pb_encode_tag_for_field}

abbrev pub SubEncoder : Type 0
SubEncoder = ℕ → ℕ → Encoder

-- The end of the second pass of `pb_encode_submessage`, on the outcome of the substream.
abbrev pub close_substream : ℕ → Outcome (Unit {0}) × Ostream → Encoder
close_substream size (status, sub) s =
    let s' = record s {
      bytes_written = u64 (s.bytes_written + sub.bytes_written);
      state = sub.state;
      errmsg = sub.errmsg;
    } in
    elim status [
      | fault ↦ (fault, s')
      | out_of_fuel ↦ (out_of_fuel, s')
      | done ↦ if not (sub.bytes_written == size) then raise submsg_size_changed s' else (done, s')
    ]

-- The second pass, on a stream that may write `size` bytes and no more.
unfoldable pub second_pass : Encoder → ℕ → Encoder
second_pass encode size s =
    close_substream size
      (encode (record {
        callback = s.callback;
        state = s.state;
        max_size = size;
        bytes_written = 0;
        errmsg = none;
      }))
      s

-- What follows the size of a submessage.
unfoldable pub write_submessage : Encoder → ℕ → Encoder
write_submessage encode size s =
    if is_null s.callback
    then pb_write [] size s
    else (if ltb s.max_size (u64 (s.bytes_written + size))
        then raise stream_full s
        else second_pass encode size s)

-- What follows the first pass.
abbrev pub sized_submessage : Encoder → Outcome (Unit {0}) × Ostream → Encoder
sized_submessage encode (ok _, sub) =
    pb_encode_varint sub.bytes_written >> write_submessage encode sub.bytes_written
sized_submessage encode (failed, sub) = λ s. (failed, record s { errmsg = sub.errmsg })
sized_submessage encode (fault, sub) = λ s. (fault, s)
sized_submessage encode (out_of_fuel, sub) = λ s. (out_of_fuel, s)

-- `encode` is `pb_encode` at the fields and the message.
unfoldable pub pb_encode_submessage : Encoder → Encoder
pb_encode_submessage encode = sized_submessage encode (encode pb_ostream_sizing)

-- `for (i = 0; i < count; i++)` over items of `data_size` bytes.
unfoldable pub for_items : ℕ → ℕ → ℕ → (ℕ → Encoder) → Encoder
for_items zero data_size p item = return tt
for_items (suc count) data_size p item = do
  item p
  for_items count data_size (u64 (p + data_size)) item

-- The size loop on a sizing stream of its own, which leaves the output stream alone.
abbrev pub sized_items : (ℕ → Encoder) → Outcome (Unit {0}) × Ostream → Encoder
sized_items write (ok _, sizes) = write sizes.bytes_written
sized_items write (failed, sizes) = λ s. (failed, s)
sized_items write (fault, sizes) = λ s. (fault, s)
sized_items write (out_of_fuel, sizes) = λ s. (out_of_fuel, s)

-- The size of a packed array and its data.
unfoldable pub write_packed : Encoder → ℕ → Encoder
write_packed items size = do
  pb_encode_varint size
  λ s. if is_null s.callback then pb_write [] size s else items s

module _ (mem : Memory) (func : FieldEncoder) (field : PbField) (count p_data : ℕ) where
  unfoldable pub packed_items : Encoder
  packed_items = for_items count field.data_size p_data (func field)

  unfoldable pub encode_packed : Encoder
  encode_packed =
      let ltype = pb_ltype field.type in
      pb_encode_tag wt_string field.tag
      >> (if ltype == Ltype.fixed32
          then write_packed packed_items (u64 (4 * count))
          else (if ltype == Ltype.fixed64
              then write_packed packed_items (u64 (8 * count))
              else sized_items (write_packed packed_items) (packed_items pb_ostream_sizing)))

  -- The entries of a pointer-type array of strings or bytes are pointers themselves.
  unfoldable pub encode_item : ℕ → Encoder
  encode_item p =
      let ltype = pb_ltype field.type in
      let item =
        if pb_atype field.type == Atype.pointer && (ltype == Ltype.string || ltype == Ltype.bytes)
        then load_pointer mem p
        else p in
      pb_encode_tag_for_field field >> func field item

  unfoldable pub encode_unpacked : Encoder
  encode_unpacked = for_items count field.data_size p_data encode_item

  unfoldable pub encode_array : Encoder
  encode_array =
      if count == 0
      then return tt
      else (if not (pb_atype field.type == Atype.pointer) && ltb field.array_size count
          then raise array_max_size_exceeded
          else (if leb (pb_ltype field.type) Ltype.last_packable
              then encode_packed
              else encode_unpacked))

module _ (mem : Memory) (encode : SubEncoder) where
  unfoldable pub pb_enc_submessage : FieldEncoder
  pb_enc_submessage field src =
      if field.ptr == 0
      then raise invalid_field_descriptor
      else pb_encode_submessage (encode field.ptr src)

  -- PB_ENCODERS
  unfoldable pub pb_encoders : ℕ → FieldEncoder
  pb_encoders ltype = if ltype == Ltype.submessage then pb_enc_submessage else enc_scalar mem ltype
