-- ===== src/Nanopb/Encode/Ends.antt =====
-- ios/Pods/nanopb/pb_encode.c: encoders that come to an end on every stream, whatever they meet.
use spar_somnong.Common.{
  ℕ, ◌+◌, ◌≢◌, refl, Bool, true, false, ◌||◌, ◌==◌, ltb, leb, if◌then◌else◌, List, Outcome, ok,
  failed, fault, out_of_fuel, Option, none, some, resume, ◌>>◌, return,
}
use spar_somnong.Nanopb.Types.{
  ErrorMessage, PbField, u64, pb_ltype, stream_full, wt_string, wt_varint, wt_32bit, wt_64bit,
  invalid_field_type,
}
use spar_somnong.Nanopb.Ltype
use spar_somnong.Nanopb.Memory.{Memory}
use spar_somnong.Nanopb.Ostream.{
  Ostream, Encoder, raise, is_null, written, pb_write, varint_groups, write_groups,
  pb_encode_varint, pb_encode_svarint, pb_encode_fixed32, pb_encode_fixed64, pb_encode_tag,
  pb_encode_string,
}
use spar_somnong.Nanopb.Encode.Fields.{
  FieldEncoder, pb_enc_varint, pb_enc_uvarint, pb_enc_svarint, pb_enc_fixed32, pb_enc_fixed64,
  pb_enc_bytes, pb_enc_string, pb_enc_fixed_length_bytes, enc_scalar, pb_encode_tag_for_field,
}

pub record Ends (m : Encoder) : Type 0 where
  pub ends : (s : Ostream) → (m s).0 ≢ out_of_fuel

abbrev pub NotExhausted : Outcome (Unit {0}) × Ostream → Type 0
NotExhausted r = r.0 ≢ out_of_fuel

pub Ends-raise : (e : ErrorMessage) → Ends (raise e)
unfolding raise
Ends-raise e = record { ends = λ s p. cc }

pub Ends-return : Ends (return tt)
Ends-return = record { ends = λ s p. cc }

pub Ends-fault : Ends (λ s. (fault, s))
Ends-fault = record { ends = λ s p. cc }

pub Ends-if : (b : Bool) {x y : Encoder} → Ends x → Ends y → Ends (if b then x else y)
Ends-if true p q = p
Ends-if false p q = q

resume-Ends :
    (r : Outcome (Unit {0}) × Ostream) (n : Encoder)
    → NotExhausted r
    → Ends n
    → NotExhausted (resume r (λ _. n))
resume-Ends (ok a, s) n h k = k.ends s
resume-Ends (failed, s) n h k = λ p. cc
resume-Ends (fault, s) n h k = λ p. cc
resume-Ends (out_of_fuel, s) n h k = λ p. h refl

pub Ends-seq : {m n : Encoder} → Ends m → Ends n → Ends (m >> n)
Ends-seq {m} {n} h k = record { ends = λ s. resume-Ends (m s) n (h.ends s) k }

written-ends : (r : Bool × List ℕ) (count : ℕ) (s : Ostream) → NotExhausted (written r count s)
unfolding raise
written-ends (true, state) count s = λ p. cc
written-ends (false, state) count s = λ p. cc

pub pick-ends :
    (b : Bool) (x y : Outcome (Unit {0}) × Ostream)
    → NotExhausted x
    → NotExhausted y
    → NotExhausted (if b then x else y)
pick-ends true x y p q = p
pick-ends false x y p q = q

pub Ends-pb_write : (bs : List ℕ) (count : ℕ) → Ends (pb_write bs count)
unfolding pb_write
Ends-pb_write bs count = record {
  ends = λ s.
      pick-ends (is_null s.callback) _ _ (λ p. cc)
        (pick-ends (ltb s.max_size (u64 (s.bytes_written + count))) _ _
          ((Ends-raise stream_full).ends s) (written-ends _ count s));
}

Ends-write_groups : (o : Option (List ℕ)) → Ends (write_groups o)
Ends-write_groups none = record { ends = λ s p. cc }
Ends-write_groups (some bs) = record { ends = λ s. (Ends-pb_write _ _).ends s }

pub Ends-pb_encode_varint : (v : ℕ) → Ends (pb_encode_varint v)
unfolding pb_encode_varint
Ends-pb_encode_varint v =
    Ends-if (leb v 0x7F) (Ends-pb_write _ 1) (Ends-write_groups (varint_groups 10 v))

pub Ends-pb_encode_tag : (wt tag : ℕ) → Ends (pb_encode_tag wt tag)
unfolding pb_encode_tag
Ends-pb_encode_tag wt tag = Ends-pb_encode_varint _

pub Ends-pb_encode_string : (bs : List ℕ) (n : ℕ) → Ends (pb_encode_string bs n)
unfolding pb_encode_string
Ends-pb_encode_string bs n = Ends-seq (Ends-pb_encode_varint n) (Ends-pb_write bs n)

choice :
    (b : Bool) (f g : FieldEncoder) {field : PbField} {src : ℕ}
    → Ends (f field src)
    → Ends (g field src)
    → Ends ((if b then f else g) field src)
choice true f g p q = p
choice false f g p q = q

module _ (mem : Memory) (field : PbField) (src : ℕ) where
  Ends-number :
      Ends (pb_enc_varint mem field src)
      × Ends (pb_enc_uvarint mem field src)
      × Ends (pb_enc_svarint mem field src)
  unfolding pb_enc_varint pb_enc_uvarint pb_enc_svarint pb_encode_svarint
  Ends-number = (
    Ends-if _ (Ends-pb_encode_varint _) (Ends-raise _),
    Ends-if _ (Ends-pb_encode_varint _) (Ends-raise _),
    Ends-if _ (Ends-pb_encode_varint _) (Ends-raise _),
  )

  Ends-block :
      Ends (pb_enc_bytes mem field src)
      × Ends (pb_enc_string mem field src)
      × Ends (pb_enc_fixed_length_bytes mem field src)
  unfolding pb_enc_bytes pb_enc_string pb_enc_fixed_length_bytes
  Ends-block = (
    Ends-if _ (Ends-pb_encode_string _ _) (Ends-if _ (Ends-raise _) (Ends-pb_encode_string _ _)),
    Ends-pb_encode_string _ _,
    Ends-pb_encode_string _ _,
  )

  pub Ends-enc_scalar : (ltype : ℕ) → Ends (enc_scalar mem ltype field src)
  unfolding enc_scalar pb_enc_fixed32 pb_enc_fixed64 pb_encode_fixed32 pb_encode_fixed64
  Ends-enc_scalar ltype = choice (ltype == Ltype.varint) _ _ Ends-number.0 (
      choice (ltype == Ltype.uvarint) _ _ Ends-number.1 (
        choice (ltype == Ltype.svarint) _ _ Ends-number.2 (
          choice (ltype == Ltype.fixed32) _ _ (Ends-pb_write _ _) (
            choice (ltype == Ltype.fixed64) _ _ (Ends-pb_write _ _) (
              choice (ltype == Ltype.bytes) _ _ Ends-block.0 (
                choice (ltype == Ltype.string) _ _ Ends-block.1
                  (choice (ltype == Ltype.fixed_length_bytes) _ _ Ends-block.2 Ends-fault)))))))

pub Ends-pb_encode_tag_for_field : (field : PbField) → Ends (pb_encode_tag_for_field field)
unfolding pb_encode_tag_for_field
Ends-pb_encode_tag_for_field field =
    let ltype = pb_ltype field.type in
    Ends-if (ltype == Ltype.varint || (ltype == Ltype.uvarint || ltype == Ltype.svarint))
      (Ends-pb_encode_tag wt_varint field.tag)
      (Ends-if (ltype == Ltype.fixed32) (Ends-pb_encode_tag wt_32bit field.tag) (
        Ends-if (ltype == Ltype.fixed64) (Ends-pb_encode_tag wt_64bit field.tag) (
          Ends-if
            (ltype == Ltype.bytes
              || (ltype == Ltype.string
                  || (ltype == Ltype.submessage || ltype == Ltype.fixed_length_bytes)))
            (Ends-pb_encode_tag wt_string field.tag) (Ends-raise invalid_field_type))))
