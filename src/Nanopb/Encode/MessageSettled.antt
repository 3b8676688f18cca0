-- ===== src/Nanopb/Encode/MessageSettled.antt =====
-- `pb_encode` is settled: what it writes depends on the message alone, and not on the stream.
use spar_somnong.Common.{
  ℕ, Bool, zero, suc, ◌+◌, ◌≡◌, refl, length, All, arith, not, ◌||◌, ◌==◌, ==_iff, if◌then◌else◌,
  Bool-cases, inl, inr,
}
use spar_somnong.Nanopb.Types.{
  PbField, pb_ltype, pb_htype, pb_atype, invalid_field_type, missing_required_field,
}
use spar_somnong.Nanopb.Ltype
use spar_somnong.Nanopb.Htype
use spar_somnong.Nanopb.Atype
use spar_somnong.Nanopb.Memory.{
  Memory, Program, load, load_pointer, load_size, load_bool, callback_arg, extension_next,
  extension_type_arg, extension_type_encode,
}
use spar_somnong.Nanopb.Iter.{
  PbFieldIter, field_at, size_address, current, iter_at_start, advance, pb_field_iter_begin,
  pb_field_iter_next,
}
use spar_somnong.Nanopb.Ostream.Values.{Writes-pb_encode_fixed32, Writes-pb_encode_fixed64}
use spar_somnong.Nanopb.Ostream.Settled.{
  Settled, Settled-return, Settled-raise, Settled-fault, Settled-out_of_fuel, Settled-if,
  Settled-seq,
}
use spar_somnong.Nanopb.Encode.Fields.{FieldEncoder, enc_scalar, pb_enc_fixed32, pb_enc_fixed64}
use spar_somnong.Nanopb.Encode.Array.{SubEncoder, pb_enc_submessage, pb_encoders}
use spar_somnong.Nanopb.Encode.Bounds.{IsField, field_at-IsField}
use spar_somnong.Nanopb.Encode.FieldsSettled.{enc_scalar-Settled, pb_encode_tag_for_field-Settled}
use spar_somnong.Nanopb.Encode.SubmessageSettled.{pb_encode_submessage-Settled}
use spar_somnong.Nanopb.Encode.ArraySettled.{WritesWidth, IsItemEncoder, encode_array-Settled}
use spar_somnong.Nanopb.Encode.CallbackSettled.{with_value-Settled, or_callback_error-Settled}
use spar_somnong.Nanopb.Encode.Message.{
  tagged, encode_repeated, encode_oneof, encode_by_rule, implicit_has, encode_basic_field,
  encode_callback_field, encode_field, default_extension_encoder, encode_extension, extension_loop,
  encode_extension_field, encode_any, encode_fields, pb_encode,
}

-- The descriptors fit their struct, and the callbacks of the user do as pb.h and pb_encode.h ask:
-- they write the same data in every pass, to sizing streams and memory buffers.
pub record IsProgram (program : Program) : Type 0 where
  pub tables : (a : ℕ) → All IsField (program.fields_at a)
  pub callbacks :
      (function : ℕ) (field : PbField) (arg : ℕ)
      → Settled (program.encode_callback function field arg)
  pub extensions : (function extension : ℕ) → Settled (program.encode_extension function extension)

start-pb_field_iter_next : (it : PbFieldIter) → (pb_field_iter_next it).1.start ≡ it.start
unfolding pb_field_iter_next advance
start-pb_field_iter_next it = ground arith

module _ (program : Program) (mem : Memory) (sound : IsProgram program) (encode : SubEncoder)
    (settled : (fields src : ℕ) → Settled (encode fields src)) where
  pb_encoders-Settled :
      (field : PbField) (ltype p : ℕ)
      → IsField field
      → Settled (pb_encoders mem encode ltype field p)
  unfolding pb_encoders pb_enc_submessage
  pb_encoders-Settled field ltype p ok_field = elim (Bool-cases (ltype == Ltype.submessage)) [
    | inl e ↦ rw e (
        Settled-if (field.ptr == 0) (Settled-raise _)
          (pb_encode_submessage-Settled (settled field.ptr p)))
    | inr n ↦ rw n (enc_scalar-Settled mem field ok_field p ltype)
  ]

  fixed32_width :
      (field : PbField) (l p : ℕ) → l ≡ 3 → WritesWidth (pb_encoders mem encode l field p) 4
  unfolding pb_encoders enc_scalar pb_enc_fixed32
  fixed32_width field l p e =
      rw e (record { bytes = _; written = Writes-pb_encode_fixed32 (load mem 4 p); width = refl })

  fixed64_width :
      (field : PbField) (l p : ℕ) → l ≡ 4 → WritesWidth (pb_encoders mem encode l field p) 8
  unfolding pb_encoders enc_scalar pb_enc_fixed64
  fixed64_width field l p e =
      rw e (record { bytes = _; written = Writes-pb_encode_fixed64 (load mem 8 p); width = refl })

  pb_encoders-IsItemEncoder :
      (field : PbField)
      → IsField field
      → IsItemEncoder (pb_encoders mem encode (pb_ltype field.type)) field
  pb_encoders-IsItemEncoder field ok_field = record {
    settled = λ p. pb_encoders-Settled field (pb_ltype field.type) p ok_field;
    width32 = λ e p. fixed32_width field (pb_ltype field.type) p ((==_iff _ 3).0 e);
    width64 = λ e p. fixed64_width field (pb_ltype field.type) p ((==_iff _ 4).0 e);
  }

  module _ (field : PbField) (ok_field : IsField field) where
    abbrev func : FieldEncoder
    func = pb_encoders mem encode (pb_ltype field.type)

    tagged-Settled : (p : ℕ) → Settled (tagged program mem func field p)
    unfolding tagged
    tagged-Settled p =
        Settled-seq (pb_encode_tag_for_field-Settled field ok_field)
          (pb_encoders-Settled field (pb_ltype field.type) p ok_field)

    pub encode_by_rule-Settled :
        (p_size : ℕ) (has : Bool) (p : ℕ)
        → Settled (encode_by_rule program mem func field p_size has p)
    unfolding encode_by_rule encode_repeated encode_oneof
    encode_by_rule-Settled p_size has p =
        Settled-if (pb_htype field.type == Htype.required)
          (Settled-if (p == 0) (Settled-raise missing_required_field) (tagged-Settled p))
          (Settled-if (pb_htype field.type == Htype.optional)
            (Settled-if has (tagged-Settled p) Settled-return)
            (Settled-if (pb_htype field.type == Htype.repeated)
              (encode_array-Settled mem func field ok_field
                (pb_encoders-IsItemEncoder field ok_field)
                (if not (field.size_offset == 0) then load_size mem p_size else field.array_size) p)
              (Settled-if (pb_htype field.type == Htype.oneof)
                (Settled-if (field.size_offset == 0) Settled-fault (
                  Settled-if (load_size mem p_size == field.tag) (tagged-Settled p) Settled-return))
                (Settled-raise invalid_field_type))))

    encode_basic_field-Settled :
        (fuel p : ℕ) → Settled (encode_basic_field program mem fuel encode field p)
    unfolding encode_basic_field
    encode_basic_field-Settled fuel p =
        with_value-Settled (implicit_has program mem fuel field p) _ (λ implicit.
          Settled-if (pb_atype field.type == Atype.pointer)
            (encode_by_rule-Settled (size_address p field)
              (if field.size_offset == 0
                then not (load_pointer mem p == 0)
                else load_bool mem (size_address p field))
              (load_pointer mem p))
            (encode_by_rule-Settled (size_address p field)
              (if field.size_offset == 0 then implicit else load_bool mem (size_address p field))
              p))

    encode_callback_field-Settled : (p : ℕ) → Settled (encode_callback_field program mem field p)
    unfolding encode_callback_field
    encode_callback_field-Settled p =
        Settled-if (load_pointer mem p == 0) Settled-return (
          or_callback_error-Settled (sound.callbacks (load_pointer mem p) field (p + callback_arg)))

    pub encode_field-Settled : (fuel p : ℕ) → Settled (encode_field program mem fuel encode field p)
    unfolding encode_field
    encode_field-Settled fuel p =
        Settled-if (pb_atype field.type == Atype.static || pb_atype field.type == Atype.pointer)
          (encode_basic_field-Settled fuel p)
          (Settled-if (pb_atype field.type == Atype.callback) (encode_callback_field-Settled p)
            (Settled-raise invalid_field_type))

  encode_extension-Settled :
      (fuel extension : ℕ) → Settled (encode_extension program mem fuel encode extension)
  unfolding encode_extension default_extension_encoder
  encode_extension-Settled fuel extension =
      Settled-if (not (load_pointer mem (load_pointer mem extension + extension_type_encode) == 0))
        (sound.extensions _ extension)
        (encode_field-Settled _
          (field_at-IsField _ 0
            (sound.tables (load_pointer mem (load_pointer mem extension + extension_type_arg))))
          fuel _)

  extension_loop-Settled :
      (rounds fuel extension : ℕ)
      → Settled (extension_loop program mem rounds fuel encode extension)
  unfolding extension_loop
  extension_loop-Settled zero fuel extension =
      Settled-if (extension == 0) Settled-return Settled-out_of_fuel
  extension_loop-Settled (suc rounds) fuel extension = Settled-if (extension == 0) Settled-return (
      Settled-seq (encode_extension-Settled fuel extension)
        (extension_loop-Settled rounds fuel (load_pointer mem (extension + extension_next))))

  encode_any-Settled :
      (field : PbField)
      → IsField field
      → (fuel p : ℕ) → Settled (encode_any program mem fuel encode field p)
  unfolding encode_any encode_extension_field
  encode_any-Settled field ok_field fuel p =
      Settled-if (pb_ltype field.type == Ltype.extension)
        (extension_loop-Settled fuel fuel (load_pointer mem p))
        (encode_field-Settled field ok_field fuel p)

  encode_fields-Settled :
      (rounds fuel : ℕ) (it : PbFieldIter)
      → All IsField it.start
      → Settled (encode_fields program mem rounds fuel encode it)
  unfolding encode_fields
  encode_fields-Settled zero fuel it h = Settled-out_of_fuel
  encode_fields-Settled (suc rounds) fuel it h =
      let h' : All IsField (pb_field_iter_next it).1.start = rw (start-pb_field_iter_next it) h in
      Settled-seq
        (encode_any-Settled (current it) (field_at-IsField it.start it.pos h) fuel it.p_data)
        (Settled-if (pb_field_iter_next it).0
          (encode_fields-Settled rounds fuel (pb_field_iter_next it).1 h') Settled-return)

module _ (program : Program) (mem : Memory) (sound : IsProgram program) where
  -- At any fuel, descriptor and address `pb_encode` writes one sequence of bytes, to sizing
  -- streams and memory buffers alike, or succeeds on no sizing stream, for descriptors that fit
  -- their struct and user callbacks that are settled.
  pub pb_encode-Settled : (fuel fields src : ℕ) → Settled (pb_encode program mem fuel fields src)
  unfolding pb_encode pb_field_iter_begin
  pb_encode-Settled zero fields src = Settled-out_of_fuel
  pb_encode-Settled (suc fuel) fields src =
      Settled-if (not ((field_at (program.fields_at fields) 0).tag == 0))
        (encode_fields-Settled program mem sound (pb_encode program mem fuel)
          (pb_encode-Settled fuel) (length (program.fields_at fields)) fuel
          (iter_at_start (program.fields_at fields) src) (sound.tables fields))
        Settled-return
