-- ===== src/Nanopb/Encode/EndsProgram.antt =====
-- `pb_encode` has fuel enough where it has more than the nesting of the message types.
use spar_somnong.Common.{
  ℕ, zero, suc, ◌+◌, ◌<◌, ◌≡◌, refl, Bool, true, false, Bool-cases, inl, inr, not, ◌&&◌, ◌||◌, ◌==◌,
  if◌then◌else◌, List, [], ◌∷◌, length, Outcome, ok, failed, fault, out_of_fuel, arith,
}
use spar_somnong.Nanopb.Types.{
  PbField, pb_ltype, pb_htype, pb_atype, missing_required_field, invalid_field_type, callback_error,
}
use spar_somnong.Nanopb.Ltype
use spar_somnong.Nanopb.Htype
use spar_somnong.Nanopb.Atype
use spar_somnong.Nanopb.Memory.{Memory, Program, load_pointer, load_size, load_bool, callback_arg}
use spar_somnong.Nanopb.Iter.{field_at, size_address, iter_at_start, pb_field_iter_begin}
use spar_somnong.Nanopb.Ostream.{Ostream, Encoder}
use spar_somnong.Nanopb.Encode.Fields.{FieldEncoder}
use spar_somnong.Nanopb.Encode.Array.{SubEncoder, pb_encoders}
use spar_somnong.Nanopb.Encode.Defaults.{
  all_zero, submessage_default, singular_default, field_default, pb_check_proto3_default_value,
}
use spar_somnong.Nanopb.Encode.Ends.{
  Ends, NotExhausted, Ends-raise, Ends-return, Ends-fault, Ends-if, Ends-seq,
  Ends-pb_encode_tag_for_field,
}
use spar_somnong.Nanopb.Encode.EndsArray.{Ends-encode_array, Ends-pb_encoders}
use spar_somnong.Nanopb.Encode.EndsMessage.{
  IsBelow, IsRanked, Answers, either, answer, all_default-Answers,
}
use spar_somnong.Nanopb.Encode.Message.{
  with_value, or_callback_error, tagged, encode_repeated, encode_oneof, encode_by_rule,
  implicit_has, encode_basic_field, encode_callback_field, encode_field, encode_any,
}

-- A table whose first field has a tag is not empty.
pub nonempty : (fields : List PbField) → ((field_at fields 0).tag == 0) ≡ false → 0 < length fields
nonempty [] h = absurd (cc h)
nonempty (f ∷ fs) h = omega arith

Ends-with_value :
    (v : Outcome Bool) (k : Bool → Encoder)
    → Answers v
    → ((b : Bool) → Ends (k b))
    → Ends (with_value v k)
Ends-with_value (ok b) k a h = h b
Ends-with_value failed k a h = record { ends = λ s p. cc }
Ends-with_value fault k a h = record { ends = λ s p. cc }
Ends-with_value out_of_fuel k a h = absurd (a refl)

or_callback_error-ends :
    (r : Outcome (Unit {0}) × Ostream) → NotExhausted r → NotExhausted (or_callback_error r)
or_callback_error-ends (ok a, s) h = λ p. cc
or_callback_error-ends (failed, s) h = (Ends-raise callback_error).ends s
or_callback_error-ends (fault, s) h = λ p. cc
or_callback_error-ends (out_of_fuel, s) h = absurd (h refl)

negated :
    (o : Outcome Bool)
    → Answers o
    → Answers
        (elim o [ ok d ↦ ok (not d) | failed ↦ failed | fault ↦ fault | out_of_fuel ↦ out_of_fuel ])
negated (ok d) h = answer _
negated failed h = h
negated fault h = h
negated out_of_fuel h = h

module _ (program : Program) (mem : Memory) (ranked : IsRanked program) where
  abbrev Below : ℕ → PbField → Type 0
  Below r f = IsBelow ranked.rank r f

  module _ (fuel : ℕ)
      (check : (r : ℕ) (f : PbField)
        → Below r f
        → r < fuel
        → (p : ℕ) → Answers (pb_check_proto3_default_value program mem fuel f p)) where
    submessage_default-Answers :
        (f : PbField) (p : ℕ)
        → ranked.rank f.ptr < fuel
        → Answers
            (submessage_default program mem (pb_check_proto3_default_value program mem fuel) f p)
    unfolding submessage_default pb_field_iter_begin
    submessage_default-Answers f p small =
        let fields = program.fields_at f.ptr in
        elim (Bool-cases ((field_at fields 0).tag == 0)) [
          | inl e ↦ rw e (answer true)
          | inr n ↦ rw n (
              all_default-Answers program mem ranked
                (pb_check_proto3_default_value program mem fuel) f.ptr (length fields)
                (iter_at_start fields p) (λ g b q. check (ranked.rank f.ptr) g b small q) refl
                (nonempty fields n) (omega arith))
        ]

    submessage_or_number :
        (r : ℕ) (f : PbField) (p : ℕ)
        → Below r f
        → r < suc fuel
        → Answers (
            if pb_ltype f.type == Ltype.submessage
            then submessage_default program mem (pb_check_proto3_default_value program mem fuel) f p
            else ok (all_zero mem f.data_size p))
    submessage_or_number r f p below small =
        elim (Bool-cases (pb_ltype f.type == Ltype.submessage)) [
          | inl e ↦ rw e (submessage_default-Answers f p (omega (arith, below.inner e)))
          | inr n ↦ rw n (answer _)
        ]

    field_default-Answers :
        (r : ℕ) (f : PbField) (p : ℕ)
        → Below r f
        → r < suc fuel
        → Answers (field_default program mem (pb_check_proto3_default_value program mem fuel) f p)
    unfolding field_default singular_default
    field_default-Answers r f p below small =
        let ltype = pb_ltype f.type in
        let htype = pb_htype f.type in
        let others = submessage_or_number r f p below small in
        either (htype == Htype.required) _ _ (answer _) (
          either (htype == Htype.repeated) _ _ (answer _) (
            either (htype == Htype.oneof) _ _ (answer _) (
              either (htype == Htype.optional && not (f.size_offset == 0)) _ _ (answer _) (
                either (not (pb_atype f.type == Atype.static)) _ _ (answer _) (
                  either (ltype == Ltype.bytes) _ _ (answer _) (
                    either (ltype == Ltype.string) _ _ (answer _)
                      (either (ltype == Ltype.fixed_length_bytes) _ _ (answer _) others)))))))

  check-Answers :
      (fuel r : ℕ) (f : PbField)
      → Below r f
      → r < fuel
      → (p : ℕ) → Answers (pb_check_proto3_default_value program mem fuel f p)
  unfolding pb_check_proto3_default_value
  check-Answers zero r f below small p = absurd (omega arith)
  check-Answers (suc fuel) r f below small p =
      field_default-Answers fuel (λ r' f' b' l' p'. check-Answers fuel r' f' b' l' p') r f p below
        small

  implicit_has-Answers :
      (fuel r : ℕ) (f : PbField)
      → Below r f
      → r < fuel
      → (p : ℕ) → Answers (implicit_has program mem fuel f p)
  unfolding implicit_has
  implicit_has-Answers fuel r f below small p =
      either (not (f.size_offset == 0)) _ _ (answer false) (
        either (pb_htype f.type == Htype.optional) _ _
          (negated _ (check-Answers fuel r f below small p)) (answer true))

  module _ (fuel r : ℕ) (encode : SubEncoder) (field : PbField) (below : Below r field)
      (small : r < fuel)
      (inner : (src : ℕ)
        → (pb_ltype field.type == Ltype.submessage) ≡ true
        → Ends (encode field.ptr src)) where
    abbrev func : FieldEncoder
    func = pb_encoders mem encode (pb_ltype field.type)

    Ends-func : (p : ℕ) → Ends (func field p)
    Ends-func p = Ends-pb_encoders mem encode field inner p

    Ends-tagged : (p : ℕ) → Ends (tagged program mem func field p)
    unfolding tagged
    Ends-tagged p = Ends-seq (Ends-pb_encode_tag_for_field field) (Ends-func p)

    Ends-encode_by_rule :
        (p_size : ℕ) (has : Bool) (p : ℕ)
        → Ends (encode_by_rule program mem func field p_size has p)
    unfolding encode_by_rule encode_repeated encode_oneof
    Ends-encode_by_rule p_size has p =
        Ends-if (pb_htype field.type == Htype.required)
          (Ends-if (p == 0) (Ends-raise missing_required_field) (Ends-tagged p))
          (Ends-if (pb_htype field.type == Htype.optional) (Ends-if has (Ends-tagged p) Ends-return)
            (Ends-if (pb_htype field.type == Htype.repeated)
              (Ends-encode_array mem func field Ends-func
                (if not (field.size_offset == 0) then load_size mem p_size else field.array_size) p)
              (Ends-if (pb_htype field.type == Htype.oneof)
                (Ends-if (field.size_offset == 0) Ends-fault
                  (Ends-if (load_size mem p_size == field.tag) (Ends-tagged p) Ends-return))
                (Ends-raise invalid_field_type))))

    Ends-encode_basic_field : (p : ℕ) → Ends (encode_basic_field program mem fuel encode field p)
    unfolding encode_basic_field
    Ends-encode_basic_field p =
        Ends-with_value (implicit_has program mem fuel field p) _
          (implicit_has-Answers fuel r field below small p)
          (λ implicit.
            Ends-if (pb_atype field.type == Atype.pointer)
              (Ends-encode_by_rule (size_address p field)
                (if field.size_offset == 0
                  then not (load_pointer mem p == 0)
                  else load_bool mem (size_address p field))
                (load_pointer mem p))
              (Ends-encode_by_rule (size_address p field)
                (if field.size_offset == 0 then implicit else load_bool mem (size_address p field))
                p))

    Ends-encode_callback_field : (p : ℕ) → Ends (encode_callback_field program mem field p)
    unfolding encode_callback_field
    Ends-encode_callback_field p = Ends-if (load_pointer mem p == 0) Ends-return (record {
      ends = λ s.
          or_callback_error-ends _
            ((ranked.callbacks (load_pointer mem p) field (p + callback_arg)).ends s);
    })

    pub Ends-encode_any : (p : ℕ) → Ends (encode_any program mem fuel encode field p)
    unfolding encode_any encode_field
    Ends-encode_any p =
        let plain = below.plain in
        rw plain (
          Ends-if (pb_atype field.type == Atype.static || pb_atype field.type == Atype.pointer)
            (Ends-encode_basic_field p)
            (Ends-if (pb_atype field.type == Atype.callback) (Ends-encode_callback_field p)
              (Ends-raise invalid_field_type)))
