-- ===== src/Nanopb/Encode/FieldsSettled.antt =====
-- The encoders of the single data types are settled.
use spar_somnong.Common.{
  ℕ, Bool, ◌+◌, ◌-◌, ◌^◌, ◌<◌, ◌≡◌, refl, List, [], length, arith, true, false, ◌&&◌, ltb, ◌==◌,
  if◌then◌else◌, Bool-cases, inl, inr,
}
use spar_somnong.Nanopb.Types.{PbField, wt_varint, wt_64bit, wt_string, wt_32bit, pb_atype}
use spar_somnong.Nanopb.Ltype
use spar_somnong.Nanopb.Atype
use spar_somnong.Nanopb.Memory.{Memory, load, load_size, bytes_array_bytes}
use spar_somnong.Nanopb.Ostream.{pb_encode_tag, pb_encode_string}
use spar_somnong.Nanopb.Ostream.Values.{
  Writes-pb_encode_varint, Writes-pb_encode_svarint, Writes-pb_encode_fixed32,
  Writes-pb_encode_fixed64, Writes-pb_encode_tag, Writes-pb_encode_string,
}
use spar_somnong.Nanopb.Ostream.Settled.{Settled, writes, Settled-raise, Settled-fault, Settled-if}
use spar_somnong.Nanopb.Encode.Fields.{
  FieldEncoder, is_integer_size, string_size, pb_enc_varint, pb_enc_uvarint, pb_enc_svarint,
  pb_enc_fixed32, pb_enc_fixed64, pb_enc_bytes, pb_enc_string, pb_enc_fixed_length_bytes,
  enc_scalar, pb_encode_tag_for_field,
}
use spar_somnong.Nanopb.Encode.Bounds.{
  load_integer-lt, load_size-lt, length-load_bytes, string_size-le, IsField,
}

Settled-tag : (wt tag : ℕ) → wt < 8 → tag < 2 ^ 32 → Settled (pb_encode_tag wt tag)
Settled-tag wt tag h k = writes _ (Writes-pb_encode_tag wt tag h k)

Settled-string :
    (bs : List ℕ) (n : ℕ) → length bs ≡ n → n < 2 ^ 64 → Settled (pb_encode_string bs n)
Settled-string bs n e h = rw (← e) (writes _ (Writes-pb_encode_string bs (rw e h)))

module _ (mem : Memory) (field : PbField) (ok : IsField field) (src : ℕ) where
  Settled-varint : Settled (pb_enc_varint mem field src)
  unfolding pb_enc_varint
  Settled-varint =
      Settled-if (is_integer_size field.data_size)
        (writes _ (Writes-pb_encode_varint _ (omega arith))) (Settled-raise _)

  Settled-uvarint : Settled (pb_enc_uvarint mem field src)
  unfolding pb_enc_uvarint
  Settled-uvarint = elim (Bool-cases (is_integer_size field.data_size)) [
    | inl fits ↦ rw fits (writes _ (Writes-pb_encode_varint _ (load_integer-lt mem _ src fits)))
    | inr bad ↦ rw bad (Settled-raise _)
  ]

  Settled-svarint : Settled (pb_enc_svarint mem field src)
  unfolding pb_enc_svarint
  Settled-svarint =
      Settled-if (is_integer_size field.data_size)
        (writes _ (Writes-pb_encode_svarint _ (omega arith))) (Settled-raise _)

  Settled-bytes : Settled (pb_enc_bytes mem field src)
  unfolding pb_enc_bytes
  Settled-bytes = Settled-if (src == 0) (Settled-string [] 0 refl (omega arith)) (
      Settled-if
        (pb_atype field.type == Atype.static
          && ltb field.data_size (load_size mem src + bytes_array_bytes))
        (Settled-raise _)
        (Settled-string _ (load_size mem src) (length-load_bytes mem _ _)
          (omega (arith, load_size-lt mem src))))

  string_size-lt :
      (b c : Bool)
      → (if b then 0 else string_size mem (if c then 2 ^ 64 - 1 else field.data_size) src) < 2 ^ 64
  string_size-lt true c = omega arith
  string_size-lt false true = omega (arith, string_size-le mem (2 ^ 64 - 1) src)
  string_size-lt false false = omega (arith, string_size-le mem field.data_size src)

  Settled-text : Settled (pb_enc_string mem field src)
  unfolding pb_enc_string
  Settled-text =
      Settled-string _ _ (length-load_bytes mem _ src)
        (string_size-lt (src == 0) (pb_atype field.type == Atype.pointer))

  Settled-fixed_length : Settled (pb_enc_fixed_length_bytes mem field src)
  unfolding pb_enc_fixed_length_bytes
  Settled-fixed_length = Settled-string _ _ (length-load_bytes mem _ src) (omega arith)

  choice :
      (b : Bool) (f g : FieldEncoder)
      → Settled (f field src)
      → Settled (g field src)
      → Settled ((if b then f else g) field src)
  choice true f g sf sg = sf
  choice false f g sf sg = sg

  -- Every entry of PB_ENCODERS but the one for submessages.
  pub enc_scalar-Settled : (ltype : ℕ) → Settled (enc_scalar mem ltype field src)
  unfolding enc_scalar pb_enc_fixed32 pb_enc_fixed64
  enc_scalar-Settled ltype = choice (ltype == Ltype.varint) _ _ Settled-varint (
      choice (ltype == Ltype.uvarint) _ _ Settled-uvarint (
        choice (ltype == Ltype.svarint) _ _ Settled-svarint (
          choice (ltype == Ltype.fixed32) _ _ (writes _ (Writes-pb_encode_fixed32 (load mem 4 src)))
            (choice (ltype == Ltype.fixed64) _ _
              (writes _ (Writes-pb_encode_fixed64 (load mem 8 src)))
              (choice (ltype == Ltype.bytes) _ _ Settled-bytes (
                choice (ltype == Ltype.string) _ _ Settled-text (
                  choice (ltype == Ltype.fixed_length_bytes) _ _ Settled-fixed_length
                    Settled-fault)))))))

-- The tag of a field, or the refusal of an unknown type.
pub pb_encode_tag_for_field-Settled :
    (field : PbField) → IsField field → Settled (pb_encode_tag_for_field field)
unfolding pb_encode_tag_for_field
pb_encode_tag_for_field-Settled field ok =
    let tagged = λ (wt : ℕ) (h : wt < 8). Settled-tag wt field.tag h ok.tag in
    Settled-if _ (tagged wt_varint (omega arith)) (
      Settled-if _ (tagged wt_32bit (omega arith)) (
        Settled-if _ (tagged wt_64bit (omega arith))
          (Settled-if _ (tagged wt_string (omega arith)) (Settled-raise _))))
