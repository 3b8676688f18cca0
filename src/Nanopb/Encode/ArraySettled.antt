-- ===== src/Nanopb/Encode/ArraySettled.antt =====
-- Packed and unpacked arrays are settled where the encoder of their items is.
use spar_somnong.Common.{
  ℕ, zero, suc, ◌+◌, ◌*◌, ◌≡◌, ◌≢◌, refl, List, [], ◌++◌, length, length-append, arith, true, ◌==◌,
  if◌then◌else◌, Bool-cases, inl, inr, Outcome, ok, failed, fault, out_of_fuel,
}
use spar_somnong.Nanopb.Types.{PbField, u64, wt_string, pb_ltype}
use spar_somnong.Nanopb.Ltype
use spar_somnong.Nanopb.Memory.{Memory}
use spar_somnong.Nanopb.Ostream.{Ostream, Encoder, is_null, pb_write, pb_ostream_sizing}
use spar_somnong.Nanopb.Ostream.Writes.{Writes, Writes-seq, Writes-return, sizing}
use spar_somnong.Nanopb.Ostream.Values.{Writes-pb_encode_varint, Writes-pb_encode_tag}
use spar_somnong.Nanopb.Ostream.Settled.{
  Settled, writes, refuses, Settled-return, Settled-raise, Settled-if, Settled-seq,
}
use spar_somnong.Nanopb.Encode.Fields.{FieldEncoder}
use spar_somnong.Nanopb.Encode.Array.{
  for_items, sized_items, write_packed, packed_items, encode_packed, encode_item, encode_unpacked,
  encode_array,
}
use spar_somnong.Nanopb.Encode.Bounds.{IsField}
use spar_somnong.Nanopb.Encode.FieldsSettled.{pb_encode_tag_for_field-Settled}
use spar_somnong.Nanopb.Encode.SubmessageSettled.{for_items-Settled}

-- Items of a fixed width make an array of a fixed width.
pub record WritesWidth (m : Encoder) (n : ℕ) : Type 0 where
  pub bytes : List ℕ
  pub written : Writes m bytes
  pub width : length bytes ≡ n

module _ (item : ℕ → Encoder) (width : ℕ) (written : (p : ℕ) → WritesWidth (item p) width) where
  for_items-WritesWidth :
      (count size p : ℕ) → WritesWidth (for_items count size p item) (count * width)
  unfolding for_items
  for_items-WritesWidth zero size p = record {
    bytes = [];
    written = Writes-return;
    width = omega arith;
  }
  for_items-WritesWidth (suc count) size p =
      let first = written p in
      let rest = for_items-WritesWidth count size (u64 (p + size)) in
      record {
        bytes = first.bytes ++ rest.bytes;
        written = Writes-seq first.written rest.written;
        width = omega (arith, length-append first.bytes rest.bytes, first.width, rest.width);
      }

module _ {items : Encoder} {bs : List ℕ} (w : Writes items bs) where
  packed_body : Encoder
  packed_body s = if is_null s.callback then pb_write [] (u64 (length bs)) s else items s

  packed_body-Writes : Writes packed_body bs
  unfolding packed_body pb_write
  packed_body-Writes = record {
    sizes = λ bw h. let e : u64 (bw + u64 (length bs)) ≡ u64 (bw + length bs) = omega arith in rw e;
    stores = w.stores;
    overflows = w.overflows;
  }

  write_packed-Settled : (size : ℕ) → size ≡ u64 (length bs) → Settled (write_packed items size)
  unfolding write_packed packed_body
  write_packed-Settled size e = rw e (
      writes _
        (Writes-seq (Writes-pb_encode_varint (u64 (length bs)) (omega arith)) packed_body-Writes))

sized_items-ne-ok :
    (write : ℕ → Encoder) (r : Outcome (Unit {0}) × Ostream) (s : Ostream)
    → r.0 ≢ ok tt
    → (sized_items write r s).0 ≢ ok tt
sized_items-ne-ok write (ok a, t) s h = absurd (h refl)
sized_items-ne-ok write (failed, t) s h = h
sized_items-ne-ok write (fault, t) s h = h
sized_items-ne-ok write (out_of_fuel, t) s h = h

sized_items-Settled :
    {items : Encoder}
    → Settled items
    → Settled (sized_items (write_packed items) (items pb_ostream_sizing))
sized_items-Settled {items} (writes bs w) =
    let e : 0 + length bs ≡ length bs = omega arith in
    let first : items pb_ostream_sizing ≡ (ok tt, sizing (u64 (length bs))) =
      rw e at (w.sizes 0 (omega arith)) in
    rw first (write_packed-Settled w (u64 (length bs)) refl)
sized_items-Settled {items} (refuses r) = refuses (λ bw h.
    sized_items-ne-ok (write_packed items) (items pb_ostream_sizing) (sizing bw)
      (r 0 (omega arith)))

fixed_items-Settled :
    {items : Encoder} (k count : ℕ)
    → WritesWidth items (count * k)
    → Settled (write_packed items (u64 (k * count)))
fixed_items-Settled k count w = write_packed-Settled w.written _ (omega (arith, w.width))

-- An encoder of items that is settled, and has the width of its type where the type has one.
pub record IsItemEncoder (func : FieldEncoder) (field : PbField) : Type 0 where
  pub settled : (p : ℕ) → Settled (func field p)
  pub width32 :
      (pb_ltype field.type == Ltype.fixed32) ≡ true → (p : ℕ) → WritesWidth (func field p) 4
  pub width64 :
      (pb_ltype field.type == Ltype.fixed64) ≡ true → (p : ℕ) → WritesWidth (func field p) 8

module _ (mem : Memory) (func : FieldEncoder) (field : PbField) (ok_field : IsField field)
    (is_item : IsItemEncoder func field) (count p_data : ℕ) where
  encode_packed-Settled : Settled (encode_packed mem func field count p_data)
  unfolding encode_packed packed_items
  encode_packed-Settled =
      Settled-seq (writes _ (Writes-pb_encode_tag wt_string field.tag (omega arith) ok_field.tag))
        (elim (Bool-cases (pb_ltype field.type == Ltype.fixed32)) [
          | inl e ↦ rw e (
              fixed_items-Settled 4 count (
                for_items-WritesWidth (func field) 4 (is_item.width32 e) count field.data_size
                  p_data))
          | inr n ↦ rw n (elim (Bool-cases (pb_ltype field.type == Ltype.fixed64)) [
            | inl e ↦ rw e (
                fixed_items-Settled 8 count (
                  for_items-WritesWidth (func field) 8 (is_item.width64 e) count field.data_size
                    p_data))
            | inr n' ↦ rw n' (
                sized_items-Settled
                  (for_items-Settled (func field) is_item.settled count field.data_size p_data))
          ])
        ])

  encode_unpacked-Settled : Settled (encode_unpacked mem func field count p_data)
  unfolding encode_unpacked encode_item
  encode_unpacked-Settled =
      for_items-Settled _
        (λ p. Settled-seq (pb_encode_tag_for_field-Settled field ok_field) (is_item.settled _))
        count field.data_size p_data

  pub encode_array-Settled : Settled (encode_array mem func field count p_data)
  unfolding encode_array
  encode_array-Settled =
      Settled-if (count == 0) Settled-return (
        Settled-if _ (Settled-raise _) (Settled-if _ encode_packed-Settled encode_unpacked-Settled))
