-- ===== src/Nanopb/Decode/Restores.antt =====
-- ios/Pods/nanopb: the decoders of number fields restore what the encoders of pb_encode.c wrote.
use spar_somnong.Common.{
  ℕ, ◌-◌, ◌%◌, ◌^◌, ◌<◌, ◌≤◌, ◌≡◌, refl, true, ==_refl, List, ◌++◌, length, ok, arith, ◌∙◌,
}
use native.Mathlib.Nat.{mod-eq_of_lt}
use spar_somnong.Nanopb.Types.{PbField}
use spar_somnong.Nanopb.Memory.{Memory, load}
use spar_somnong.Nanopb.Wire.{varint64, little_endian}
use spar_somnong.Nanopb.Ostream.{Encoder, zigzag}
use spar_somnong.Nanopb.Ostream.Writes.{Writes}
use spar_somnong.Nanopb.Ostream.Values.{
  Writes-pb_encode_varint, Writes-pb_encode_svarint, Writes-pb_encode_fixed32,
  Writes-pb_encode_fixed64, zigzag-lt,
}
use spar_somnong.Nanopb.Istream.Reads.{input, pb_decode_varint-Reads}
use spar_somnong.Nanopb.Istream.ReadsValues.{
  pb_decode_svarint-Reads, pb_decode_fixed32-Reads, pb_decode_fixed64-Reads,
}
use spar_somnong.Nanopb.RoundTrip.{unzigzag-zigzag}
use spar_somnong.Nanopb.Encode.Fields.{
  is_integer_size, pb_enc_varint, pb_enc_uvarint, pb_enc_svarint, pb_enc_fixed32, pb_enc_fixed64,
}
use spar_somnong.Nanopb.Encode.Bounds.{load-lt, load_integer-lt}
use spar_somnong.Nanopb.Decode.Target.{FieldAction, store}
use spar_somnong.Nanopb.Decode.Stored.{load-store}
use spar_somnong.Nanopb.Decode.Sizes.{
  unsigned_fits, signed_value, signed_low, signed_low_load, varint_value,
}
use spar_somnong.Nanopb.Decode.Numbers.{
  put_signed, put_unsigned, pb_dec_varint, pb_dec_uvarint, pb_dec_svarint, pb_dec_fixed32,
  pb_dec_fixed64,
}

-- The encoder writes some bytes. In front of anything the decoder reads exactly these, and stores
-- `n` bytes at `dest` that hold `v`; nothing else of the memory changes.
pub record Restores (enc : Encoder) (dec : FieldAction (Unit {0})) (n dest v : ℕ) : Type 0 where
  pub bytes : List ℕ
  pub value : ℕ
  pub writes : Writes enc bytes
  pub restores :
      (rest : List ℕ) (k : ℕ) (into : Memory)
      → length bytes ≤ k
      → dec (record { stream = input (bytes ++ rest) k; memory = into }) ≡ (
        ok tt,
        record { stream = input rest (k - length bytes); memory = store into n dest value },
      )
  pub loads : (into : Memory) → load (store into n dest value) n dest ≡ v

stored_loads :
    (n dest v value : ℕ)
    → value % 256 ^ n ≡ v
    → (into : Memory) → load (store into n dest value) n dest ≡ v
stored_loads n dest v value e into = load-store into n dest value ∙ e

module _ (mem : Memory) (field : PbField) (src dest : ℕ) where
  pub pb_dec_fixed32-Restores :
      Restores (pb_enc_fixed32 mem field src) (pb_dec_fixed32 field dest) 4 dest (load mem 4 src)
  unfolding pb_enc_fixed32 pb_dec_fixed32
  pb_dec_fixed32-Restores =
      let v = load mem 4 src in
      let small : v < 2 ^ 32 = omega (arith, load-lt mem 4 src) in
      record {
        bytes = little_endian 4 v;
        value = v;
        writes = Writes-pb_encode_fixed32 v;
        restores = λ rest k into h. rw (pb_decode_fixed32-Reads v small rest k h) refl;
        loads = stored_loads 4 dest v v (mod-eq_of_lt (load-lt mem 4 src));
      }

  pub pb_dec_fixed64-Restores :
      Restores (pb_enc_fixed64 mem field src) (pb_dec_fixed64 field dest) 8 dest (load mem 8 src)
  unfolding pb_enc_fixed64 pb_dec_fixed64
  pb_dec_fixed64-Restores =
      let v = load mem 8 src in
      let small : v < 2 ^ 64 = omega (arith, load-lt mem 8 src) in
      record {
        bytes = little_endian 8 v;
        value = v;
        writes = Writes-pb_encode_fixed64 v;
        restores = λ rest k into h. rw (pb_decode_fixed64-Reads v small rest k h) refl;
        loads = stored_loads 8 dest v v (mod-eq_of_lt (load-lt mem 8 src));
      }

  module _ (size_ok : is_integer_size field.data_size ≡ true) where
    abbrev number : ℕ
    number = load mem field.data_size src

    abbrev signed : ℕ
    signed = signed_value field.data_size number

    -- For a field of 1, 2, 4 or 8 bytes `pb_enc_uvarint` writes bytes that `pb_dec_uvarint`
    -- reads back: the field at the destination then holds the number of the source.
    pub pb_dec_uvarint-Restores :
        Restores
          (pb_enc_uvarint mem field src)
          (pb_dec_uvarint field dest)
          field.data_size
          dest
          (load mem field.data_size src)
    unfolding pb_enc_uvarint pb_dec_uvarint put_unsigned
    pb_dec_uvarint-Restores =
        let small : number < 2 ^ 64 = load_integer-lt mem field.data_size src size_ok in
        let below = load-lt mem field.data_size src in
        record {
          bytes = varint64 number;
          value = number;
          writes = rw size_ok (Writes-pb_encode_varint number small);
          restores = λ rest k into h.
              rw
                (
                  pb_decode_varint-Reads number small rest k h,
                  unsigned_fits field.data_size size_ok number below,
                  size_ok,
                  ==_refl number,
                )
                refl;
          loads = stored_loads field.data_size dest number number (mod-eq_of_lt below);
        }

    -- For a field of 1, 2, 4 or 8 bytes `pb_enc_svarint` writes bytes that `pb_dec_svarint`
    -- reads back: the field at the destination then holds the bit pattern of the source.
    pub pb_dec_svarint-Restores :
        Restores
          (pb_enc_svarint mem field src)
          (pb_dec_svarint field dest)
          field.data_size
          dest
          (load mem field.data_size src)
    unfolding pb_enc_svarint pb_dec_svarint put_signed
    pb_dec_svarint-Restores =
        let small : signed < 2 ^ 64 = omega arith in
        let below = load-lt mem field.data_size src in
        record {
          bytes = varint64 (zigzag signed);
          value = signed;
          writes = rw size_ok (Writes-pb_encode_svarint signed small);
          restores = λ rest k into h.
              rw
                (
                  pb_decode_svarint-Reads (zigzag signed) (zigzag-lt signed small) rest k h,
                  unzigzag-zigzag signed small,
                  signed_low field.data_size size_ok number below,
                  size_ok,
                  ==_refl signed,
                )
                refl;
          loads =
              stored_loads field.data_size dest number signed
                (signed_low_load field.data_size size_ok number below);
        }

    -- For a field of 1, 2, 4 or 8 bytes `pb_enc_varint` writes bytes that `pb_dec_varint` reads
    -- back: the field at the destination then holds the bit pattern of the source.
    pub pb_dec_varint-Restores :
        Restores
          (pb_enc_varint mem field src)
          (pb_dec_varint field dest)
          field.data_size
          dest
          (load mem field.data_size src)
    unfolding pb_enc_varint pb_dec_varint put_signed
    pb_dec_varint-Restores =
        let small : signed < 2 ^ 64 = omega arith in
        let below = load-lt mem field.data_size src in
        record {
          bytes = varint64 signed;
          value = signed;
          writes = rw size_ok (Writes-pb_encode_varint signed small);
          restores = λ rest k into h.
              rw
                (
                  pb_decode_varint-Reads signed small rest k h,
                  varint_value field.data_size size_ok number below,
                  signed_low field.data_size size_ok number below,
                  size_ok,
                  ==_refl signed,
                )
                refl;
          loads =
              stored_loads field.data_size dest number signed
                (signed_low_load field.data_size size_ok number below);
        }
