-- ===== src/Nanopb/Encode/EndsArray.antt =====
-- Submessages and arrays come to an end where their parts do.
use spar_somnong.Common.{
  ℕ, zero, suc, ◌+◌, ◌*◌, ◌≡◌, refl, true, Bool-cases, inl, inr, not, ◌&&◌, ◌==◌, ltb, leb, [],
  none, Outcome, ok, failed, fault, out_of_fuel,
}
use spar_somnong.Nanopb.Types.{
  PbField, u64, pb_ltype, pb_atype, stream_full, wt_string, array_max_size_exceeded,
  invalid_field_descriptor,
}
use spar_somnong.Nanopb.Ltype
use spar_somnong.Nanopb.Atype
use spar_somnong.Nanopb.Memory.{Memory}
use spar_somnong.Nanopb.Ostream.{Ostream, Encoder, raise, is_null, pb_ostream_sizing}
use spar_somnong.Nanopb.Encode.Fields.{FieldEncoder}
use spar_somnong.Nanopb.Encode.Array.{
  SubEncoder, close_substream, second_pass, write_submessage, sized_submessage,
  pb_encode_submessage, for_items, sized_items, write_packed, packed_items, encode_packed,
  encode_item, encode_unpacked, encode_array, pb_enc_submessage, pb_encoders,
}
use spar_somnong.Nanopb.Encode.Ends.{
  Ends, NotExhausted, Ends-raise, Ends-return, Ends-if, Ends-seq, Ends-pb_write,
  Ends-pb_encode_varint, Ends-pb_encode_tag, Ends-enc_scalar, Ends-pb_encode_tag_for_field,
  pick-ends,
}

close_substream-ends :
    (size : ℕ) (r : Outcome (Unit {0}) × Ostream) (s : Ostream)
    → NotExhausted r
    → NotExhausted (close_substream size r s)
unfolding raise
close_substream-ends size (ok a, sub) s h =
    pick-ends (not (sub.bytes_written == size)) _ _ (λ p. cc) (λ p. cc)
close_substream-ends size (failed, sub) s h =
    pick-ends (not (sub.bytes_written == size)) _ _ (λ p. cc) (λ p. cc)
close_substream-ends size (fault, sub) s h = λ p. cc
close_substream-ends size (out_of_fuel, sub) s h = λ p. h refl

Ends-second_pass : {encode : Encoder} → Ends encode → (size : ℕ) → Ends (second_pass encode size)
unfolding second_pass
Ends-second_pass {encode} h size = record {
  ends = λ s.
      let sub : Ostream = record {
        callback = s.callback;
        state = s.state;
        max_size = size;
        bytes_written = 0;
        errmsg = none;
      } in
      close_substream-ends size (encode sub) s (h.ends sub);
}

Ends-write_submessage :
    {encode : Encoder} → Ends encode → (size : ℕ) → Ends (write_submessage encode size)
unfolding write_submessage
Ends-write_submessage {encode} h size = record {
  ends = λ s. pick-ends (is_null s.callback) _ _ ((Ends-pb_write [] size).ends s) (
      pick-ends (ltb s.max_size (u64 (s.bytes_written + size))) _ _
        ((Ends-raise stream_full).ends s) ((Ends-second_pass h size).ends s));
}

sized_submessage-Ends :
    {encode : Encoder}
    → Ends encode
    → (r : Outcome (Unit {0}) × Ostream) → NotExhausted r
    → Ends (sized_submessage encode r)
sized_submessage-Ends h (ok a, sub) k =
    Ends-seq (Ends-pb_encode_varint sub.bytes_written) (Ends-write_submessage h sub.bytes_written)
sized_submessage-Ends h (failed, sub) k = record { ends = λ s p. cc }
sized_submessage-Ends h (fault, sub) k = record { ends = λ s p. cc }
sized_submessage-Ends h (out_of_fuel, sub) k = absurd (k refl)

pub Ends-pb_encode_submessage :
    {encode : Encoder} → Ends encode → Ends (pb_encode_submessage encode)
unfolding pb_encode_submessage
Ends-pb_encode_submessage {encode} h =
    sized_submessage-Ends h (encode pb_ostream_sizing) (h.ends pb_ostream_sizing)

pub Ends-for_items :
    (count size p : ℕ) (item : ℕ → Encoder)
    → ((a : ℕ) → Ends (item a))
    → Ends (for_items count size p item)
unfolding for_items
Ends-for_items zero size p item h = Ends-return
Ends-for_items (suc count) size p item h =
    Ends-seq (h p) (Ends-for_items count size (u64 (p + size)) item h)

Ends-write_packed : {items : Encoder} → Ends items → (size : ℕ) → Ends (write_packed items size)
unfolding write_packed
Ends-write_packed {items} h size = Ends-seq (Ends-pb_encode_varint size) (record {
  ends = λ s. pick-ends (is_null s.callback) _ _ ((Ends-pb_write [] size).ends s) (h.ends s);
})

sized_items-Ends :
    (write : ℕ → Encoder)
    → ((n : ℕ) → Ends (write n))
    → (r : Outcome (Unit {0}) × Ostream) → NotExhausted r
    → Ends (sized_items write r)
sized_items-Ends write h (ok a, sizes) k = h sizes.bytes_written
sized_items-Ends write h (failed, sizes) k = record { ends = λ s p. cc }
sized_items-Ends write h (fault, sizes) k = record { ends = λ s p. cc }
sized_items-Ends write h (out_of_fuel, sizes) k = absurd (k refl)

module _ (mem : Memory) (func : FieldEncoder) (field : PbField)
    (h : (p : ℕ) → Ends (func field p)) where
  Ends-encode_packed : (count p : ℕ) → Ends (encode_packed mem func field count p)
  unfolding encode_packed packed_items
  Ends-encode_packed count p =
      let items = Ends-for_items count field.data_size p (func field) h in
      Ends-seq (Ends-pb_encode_tag wt_string field.tag) (
        Ends-if (pb_ltype field.type == Ltype.fixed32) (Ends-write_packed items (u64 (4 * count))) (
          Ends-if (pb_ltype field.type == Ltype.fixed64) (Ends-write_packed items (u64 (8 * count)))
            (sized_items-Ends _ (Ends-write_packed items) _ (items.ends pb_ostream_sizing))))

  Ends-encode_unpacked : (count p : ℕ) → Ends (encode_unpacked mem func field count p)
  unfolding encode_unpacked encode_item
  Ends-encode_unpacked count p =
      Ends-for_items count field.data_size p _
        (λ a. Ends-seq (Ends-pb_encode_tag_for_field field) (h _))

  pub Ends-encode_array : (count p : ℕ) → Ends (encode_array mem func field count p)
  unfolding encode_array
  Ends-encode_array count p = Ends-if (count == 0) Ends-return (
      Ends-if (not (pb_atype field.type == Atype.pointer) && ltb field.array_size count)
        (Ends-raise array_max_size_exceeded)
        (Ends-if (leb (pb_ltype field.type) Ltype.last_packable) (Ends-encode_packed count p)
          (Ends-encode_unpacked count p)))

pub Ends-pb_encoders :
    (mem : Memory) (encode : SubEncoder) (field : PbField)
    → ((src : ℕ) → (pb_ltype field.type == Ltype.submessage) ≡ true → Ends (encode field.ptr src))
    → (p : ℕ) → Ends (pb_encoders mem encode (pb_ltype field.type) field p)
unfolding pb_encoders pb_enc_submessage
Ends-pb_encoders mem encode field h p =
    elim (Bool-cases (pb_ltype field.type == Ltype.submessage)) [
      | inl e ↦ rw e (
          Ends-if (field.ptr == 0) (Ends-raise invalid_field_descriptor)
            (Ends-pb_encode_submessage (h p e)))
      | inr n ↦ rw n (Ends-enc_scalar mem field p (pb_ltype field.type))
    ]
