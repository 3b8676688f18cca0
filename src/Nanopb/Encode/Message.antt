-- ===== src/Nanopb/Encode/Message.antt =====
-- ios/Pods/nanopb/pb_encode.c: fields of every allocation, extensions and whole messages.
use spar_somnong.Common.{
  ℕ, zero, suc, ◌+◌, Bool, true, false, not, ◌||◌, [], ◌∷◌, length, ◌==◌, if◌then◌else◌, Outcome,
  ok, failed, fault, out_of_fuel, return, exhausted, ◌>>◌,
}
use spar_somnong.Nanopb.Types.{
  PbField, missing_required_field, callback_error, invalid_field_type, pb_ltype, pb_htype, pb_atype,
}
use spar_somnong.Nanopb.Ltype
use spar_somnong.Nanopb.Htype
use spar_somnong.Nanopb.Atype
use spar_somnong.Nanopb.Memory.{
  Memory, Program, load_pointer, load_size, load_bool, callback_arg, extension_dest, extension_next,
  extension_type_encode, extension_type_arg,
}
use spar_somnong.Nanopb.Iter.{
  PbFieldIter, field_at, current, size_address, pb_field_iter_begin, pb_field_iter_next,
}
use spar_somnong.Nanopb.Ostream.{Ostream, Encoder, raise, pb_ostream_sizing, pb_write}
use spar_somnong.Nanopb.Encode.Fields.{FieldEncoder, pb_encode_tag_for_field}
use spar_somnong.Nanopb.Encode.Defaults.{pb_check_proto3_default_value}
use spar_somnong.Nanopb.Encode.Array.{SubEncoder, pb_encode_submessage, encode_array, pb_encoders}

-- A value that the code computes before it touches the stream.
abbrev pub with_value : Outcome Bool → (Bool → Encoder) → Encoder
with_value (ok b) k = k b
with_value failed k = λ s. (failed, s)
with_value fault k = λ s. (fault, s)
with_value out_of_fuel k = λ s. (out_of_fuel, s)

-- `if (!call) PB_RETURN_ERROR(stream, "callback error")`
abbrev pub or_callback_error : Outcome (Unit {0}) × Ostream → Outcome (Unit {0}) × Ostream
or_callback_error (ok _, s) = (ok tt, s)
or_callback_error (failed, s) = raise callback_error s
or_callback_error (fault, s) = (fault, s)
or_callback_error (out_of_fuel, s) = (out_of_fuel, s)

-- What `pb_get_encoded_size` makes of the sizing stream.
abbrev pub size_of_output : Outcome (Unit {0}) × Ostream → Outcome ℕ
size_of_output (ok _, s) = ok s.bytes_written
size_of_output (failed, s) = failed
size_of_output (fault, s) = fault
size_of_output (out_of_fuel, s) = out_of_fuel

module _ (program : Program) (mem : Memory) where
  -- Tag and data of one field.
  unfoldable pub tagged : FieldEncoder → FieldEncoder
  tagged func field p_data = do pb_encode_tag_for_field field; func field p_data

  unfoldable pub encode_repeated : FieldEncoder → PbField → ℕ → ℕ → Encoder
  encode_repeated func field p_size p_data =
      let count = if not (field.size_offset == 0) then load_size mem p_size else field.array_size in
      encode_array mem func field count p_data

  -- A oneof field without an offset to its tag reads a count out of a Boolean of the stack.
  unfoldable pub encode_oneof : FieldEncoder → PbField → ℕ → ℕ → Encoder
  encode_oneof func field p_size p_data =
      if field.size_offset == 0
      then (λ s. (fault, s))
      else (if load_size mem p_size == field.tag then tagged func field p_data else return tt)

  -- The switch of `encode_basic_field`: `has` is the Boolean that an optional field reads.
  unfoldable pub encode_by_rule : FieldEncoder → PbField → ℕ → Bool → ℕ → Encoder
  encode_by_rule func field p_size has p_data =
      let htype = pb_htype field.type in
      if htype == Htype.required
      then (if p_data == 0 then raise missing_required_field else tagged func field p_data)
      else (if htype == Htype.optional
          then (if has then tagged func field p_data else return tt)
          else (if htype == Htype.repeated
              then encode_repeated func field p_size p_data
              else (if htype == Htype.oneof
                  then encode_oneof func field p_size p_data
                  else raise invalid_field_type)))

  -- `implicit_has` before the pointer is looked at.
  unfoldable pub implicit_has : ℕ → PbField → ℕ → Outcome Bool
  implicit_has fuel field p_data =
      let default = pb_check_proto3_default_value program mem fuel field p_data in
      if not (field.size_offset == 0)
      then ok false
      else (if pb_htype field.type == Htype.optional
          then elim default [
            | ok d ↦ ok (not d)
            | failed ↦ failed
            | fault ↦ fault
            | out_of_fuel ↦ out_of_fuel
          ]
          else ok true)

  unfoldable pub encode_basic_field : ℕ → SubEncoder → PbField → ℕ → Encoder
  encode_basic_field fuel encode field p_data =
      let func = pb_encoders mem encode (pb_ltype field.type) in
      let p_size = size_address p_data field in
      let target = load_pointer mem p_data in
      with_value (implicit_has fuel field p_data) λ implicit.
        if pb_atype field.type == Atype.pointer
        then encode_by_rule func field p_size
            (if field.size_offset == 0 then not (target == 0) else load_bool mem p_size) target
        else encode_by_rule func field p_size
            (if field.size_offset == 0 then implicit else load_bool mem p_size) p_data

  unfoldable pub encode_callback_field : PbField → ℕ → Encoder
  encode_callback_field field p_data =
      let function = load_pointer mem p_data in
      if function == 0 then return tt else (λ s.
        or_callback_error (program.encode_callback function field (p_data + callback_arg) s))

  unfoldable pub encode_field : ℕ → SubEncoder → PbField → ℕ → Encoder
  encode_field fuel encode field p_data =
      let atype = pb_atype field.type in
      if atype == Atype.static || atype == Atype.pointer
      then encode_basic_field fuel encode field p_data
      else (if atype == Atype.callback
          then encode_callback_field field p_data
          else raise invalid_field_type)

  unfoldable pub default_extension_encoder : ℕ → SubEncoder → ℕ → Encoder
  default_extension_encoder fuel encode extension =
      let type = load_pointer mem extension in
      let field = field_at (program.fields_at (load_pointer mem (type + extension_type_arg))) 0 in
      let dest =
        if pb_atype field.type == Atype.pointer
        then extension + extension_dest
        else load_pointer mem (extension + extension_dest) in
      encode_field fuel encode field dest

  unfoldable pub encode_extension : ℕ → SubEncoder → ℕ → Encoder
  encode_extension fuel encode extension =
      let type = load_pointer mem extension in
      let function = load_pointer mem (type + extension_type_encode) in
      if not (function == 0)
      then program.encode_extension function extension
      else default_extension_encoder fuel encode extension

  -- The linked list of extensions; `rounds` bounds its length.
  unfoldable pub extension_loop : ℕ → ℕ → SubEncoder → ℕ → Encoder
  extension_loop zero fuel encode extension = if extension == 0 then return tt else exhausted
  extension_loop (suc rounds) fuel encode extension =
      let more : Encoder = do
        encode_extension fuel encode extension
        extension_loop rounds fuel encode (load_pointer mem (extension + extension_next))
      in if extension == 0 then return tt else more

  unfoldable pub encode_extension_field : ℕ → SubEncoder → ℕ → Encoder
  encode_extension_field fuel encode p_data =
      extension_loop fuel fuel encode (load_pointer mem p_data)

  unfoldable pub encode_any : ℕ → SubEncoder → PbField → ℕ → Encoder
  encode_any fuel encode field p_data =
      if pb_ltype field.type == Ltype.extension
      then encode_extension_field fuel encode p_data
      else encode_field fuel encode field p_data

  -- The loop of `pb_encode`.
  unfoldable pub encode_fields : ℕ → ℕ → SubEncoder → PbFieldIter → Encoder
  encode_fields zero fuel encode it = exhausted
  encode_fields (suc rounds) fuel encode it =
      let next = pb_field_iter_next it in
      let more = encode_fields rounds fuel encode next.1 in
      encode_any fuel encode (current it) it.p_data >> (if next.0 then more else return tt)

  -- The fuel bounds the nesting of messages and the number of extensions of one.
  unfoldable pub pb_encode : ℕ → ℕ → ℕ → Encoder
  pb_encode zero fields src_struct = exhausted
  pb_encode (suc fuel) fields src_struct =
      let table = program.fields_at fields in
      let begun = pb_field_iter_begin table src_struct in
      let loop = encode_fields (length table) fuel (pb_encode fuel) begun.1 in
      if begun.0 then loop else return tt

  unfoldable pub pb_encode_delimited : ℕ → ℕ → ℕ → Encoder
  pb_encode_delimited fuel fields src_struct =
      pb_encode_submessage (pb_encode fuel fields src_struct)

  unfoldable pub pb_encode_nullterminated : ℕ → ℕ → ℕ → Encoder
  pb_encode_nullterminated fuel fields src_struct = do
    pb_encode fuel fields src_struct
    pb_write (0 ∷ []) 1

  unfoldable pub pb_get_encoded_size : ℕ → ℕ → ℕ → Outcome ℕ
  pb_get_encoded_size fuel fields src_struct =
      size_of_output (pb_encode fuel fields src_struct pb_ostream_sizing)
