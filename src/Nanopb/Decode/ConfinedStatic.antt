-- ===== src/Nanopb/Decode/ConfinedStatic.antt =====
-- ios/Pods/nanopb/pb_decode.c: `decode_static_field` stores inside of the field's data and its count
-- or flag.
use spar_somnong.Common.{
  ℕ, zero, suc, ◌+◌, ◌*◌, ◌^◌, ◌≤◌, ◌<◌, ◌≡◌, refl, ◌∙◌, inl, inr, true, false, Bool-cases, not,
  ◌&&◌, ◌==◌, ltb, leb, if◌then◌else◌, Outcome, ok, failed, fault, out_of_fuel, return, ◌>>◌, arith,
}
use native.Mathlib.Nat.{mul-le-mul}
use spar_somnong.Nanopb.Types.{
  PbField, u32, u64, wt_string, pb_ltype, pb_htype, array_overflow, invalid_field_type,
}
use spar_somnong.Nanopb.Ltype
use spar_somnong.Nanopb.Htype
use spar_somnong.Nanopb.Memory.{load_size}
use spar_somnong.Nanopb.Istream.{Istream}
use spar_somnong.Nanopb.Istream.Values.{pb_make_string_substream, pb_close_string_substream}
use spar_somnong.Nanopb.Iter.{PbFieldIter, current}
use spar_somnong.Nanopb.Decode.Target.{Target, FieldAction, on_stream, refuse, assign}
use spar_somnong.Nanopb.Decode.Numbers.{FieldDecoder}
use spar_somnong.Nanopb.Decode.Allocate.{Realloc}
use spar_somnong.Nanopb.Decode.Heap.{MemoryAction}
use spar_somnong.Nanopb.Decode.Substream.{
  close_and_return, after_substream, with_substream, item_address, count_item,
}
use spar_somnong.Nanopb.Decode.Static.{
  decode_next_item, packed_entries, close_packed, decode_packed, decode_item, init_member,
  decode_static_field,
}
use spar_somnong.Nanopb.Decode.Field.{pb_decoders}
use spar_somnong.Nanopb.Decode.Confined.{
  IsOutside, IsOutside-within, store-outside, Keeps, Keeps-bind, Keeps-refuse, Keeps-if,
  StaysInside, IsWide, pb_decoders-StaysInside,
}

-- The number of bytes that the data of the field has in the struct.
abbrev pub data_bytes : PbField → ℕ
data_bytes field =
    if pb_htype field.type == Htype.repeated
    then field.data_size * field.array_size
    else field.data_size

close_and_return-Keeps :
    (x : ℕ) (sub : Istream) (status : Outcome (Unit {0})) (t : Target)
    → Keeps x t (close_and_return sub status t)
unfolding close_and_return
close_and_return-Keeps x sub status t =
    Keeps-bind x (on_stream (pb_close_string_substream sub)) (λ _ u. (status, u)) t refl
      (λ a u. refl)

after_substream-Keeps :
    (x : ℕ) (k : Outcome (Unit {0}) → Istream → FieldAction (Unit {0})) (s : Istream) (t : Target)
    (r : Outcome (Unit {0}) × Target)
    → Keeps x t r
    → ((status : Outcome (Unit {0})) (sub : Istream) (u : Target) → Keeps x u (k status sub u))
    → Keeps x t (after_substream k r s)
after_substream-Keeps x k s t (ok a, u) h p = p (ok tt) u.stream (record u { stream = s }) ∙ h
after_substream-Keeps x k s t (failed, u) h p = p failed u.stream (record u { stream = s }) ∙ h
after_substream-Keeps x k s t (fault, u) h p = h
after_substream-Keeps x k s t (out_of_fuel, u) h p = h

with_substream-Keeps :
    (x : ℕ) (act : FieldAction (Unit {0}))
    (k : Outcome (Unit {0}) → Istream → FieldAction (Unit {0})) (t : Target)
    → ((u : Target) → Keeps x u (act u))
    → ((status : Outcome (Unit {0})) (sub : Istream) (u : Target) → Keeps x u (k status sub u))
    → Keeps x t (with_substream act k t)
unfolding with_substream
with_substream-Keeps x act k t h p =
    Keeps-bind x (on_stream pb_make_string_substream) _ t refl (λ sub u.
      after_substream-Keeps x k u.stream u (act (record u { stream = sub }))
        (h (record u { stream = sub })) p)

module _ (func : FieldDecoder) (it : PbFieldIter) (x : ℕ) (inside : StaysInside func (current it))
    (off_count : IsOutside x it.p_size 4) where
  count_item-Keeps : (t : Target) → Keeps x t (count_item it.p_size t)
  unfolding count_item
  count_item-Keeps t = store-outside t.memory 4 it.p_size _ x off_count

  module _ (off_data : IsOutside x it.p_data ((current it).data_size * (current it).array_size))
      (fits : it.p_data + (current it).data_size * (current it).array_size < 2 ^ 64)
      (small : (current it).data_size * (current it).array_size < 2 ^ 32) where
    -- An entry of the array has no wrapped address and lies in the array.
    item-Keeps :
        (size : ℕ) (t : Target)
        → size < (current it).array_size
        → Keeps x t (func (current it) (item_address (current it) it.p_data size) t)
    unfolding item_address
    item-Keeps size t lt =
        let field = current it in
        let room : field.data_size * (size + 1) ≤ field.data_size * field.array_size =
          mul-le-mul (omega arith) (omega arith) in
        let next : field.data_size * (size + 1) ≡ field.data_size * size + field.data_size =
          omega arith in
        let narrow : u32 (field.data_size * size) ≡ field.data_size * size =
          omega (arith, room, next) in
        let wide : u64 (it.p_data + field.data_size * size) ≡ it.p_data + field.data_size * size =
          omega (arith, room, next) in
        rw (narrow, wide)
          (inside x (it.p_data + field.data_size * size) t (
            IsOutside-within x it.p_data (field.data_size * field.array_size)
              (it.p_data + field.data_size * size) field.data_size off_data (omega arith)
              (omega (arith, room, next))))

    packed_entries-Keeps : (rounds : ℕ) (t : Target) → Keeps x t (packed_entries func it rounds t)
    unfolding packed_entries decode_next_item
    packed_entries-Keeps zero t = refl
    packed_entries-Keeps (suc rounds) t =
        let size = load_size t.memory it.p_size in
        let field = current it in
        elim (Bool-cases (ltb 0 t.stream.bytes_left && ltb size field.array_size)) [
          | inl e ↦
              let lt : size < field.array_size = ground arith in
              rw e (
                Keeps-bind x (decode_next_item func it)
                  (λ _. count_item it.p_size >> packed_entries func it rounds) t
                  (item-Keeps size t lt)
                  (λ a u.
                    Keeps-bind x (count_item it.p_size) (λ _. packed_entries func it rounds) u
                      (count_item-Keeps u) (λ b v. packed_entries-Keeps rounds v)))
          | inr n ↦ rw n refl
        ]

    close_packed-Keeps :
        (status : Outcome (Unit {0})) (sub : Istream) (t : Target)
        → Keeps x t (close_packed func it status sub t)
    unfolding close_packed
    close_packed-Keeps status sub t =
        Keeps-if x (not (sub.bytes_left == 0)) (refuse array_overflow) (close_and_return sub status)
          t (Keeps-refuse x array_overflow t) (close_and_return-Keeps x sub status t)

    decode_packed-Keeps : (t : Target) → Keeps x t (decode_packed func it t)
    unfolding decode_packed
    decode_packed-Keeps t =
        with_substream-Keeps x (λ u. packed_entries func it (suc u.stream.bytes_left) u)
          (close_packed func it) t (λ u. packed_entries-Keeps (suc u.stream.bytes_left) u)
          close_packed-Keeps

    decode_item-Keeps : (t : Target) → Keeps x t (decode_item func it t)
    unfolding decode_item
    decode_item-Keeps t =
        let size = load_size t.memory it.p_size in
        let field = current it in
        Keeps-bind x (count_item it.p_size) _ t (count_item-Keeps t) (λ a u.
          elim (Bool-cases (leb field.array_size size)) [
            | inl e ↦ rw e (Keeps-refuse x array_overflow u)
            | inr n ↦ rw n (item-Keeps size u (ground arith))
          ])

  module _ (off_data : IsOutside x it.p_data (data_bytes (current it)))
      (fits : it.p_data + data_bytes (current it) < 2 ^ 64)
      (small : data_bytes (current it) < 2 ^ 32)
      (number : leb (pb_ltype (current it).type) Ltype.last_packable ≡ true) where
    pub static-Keeps :
        (defaults : ℕ → ℕ → MemoryAction (Unit {0})) (wire_type : ℕ) (t : Target)
        → Keeps x t (decode_static_field func it defaults wire_type t)
    unfolding decode_static_field init_member
    static-Keeps defaults wire_type t =
        let field = current it in
        let flagged = not (it.p_size == it.p_data) in
        let one : IsOutside x it.p_size 1 =
          IsOutside-within x it.p_size 4 it.p_size 1 off_count (omega arith) (omega arith) in
        let plain : (pb_ltype field.type == Ltype.submessage) ≡ false = ground arith in
        elim (Bool-cases (pb_htype field.type == Htype.repeated)) [
          | inl e ↦
              let required : (pb_htype field.type == Htype.required) ≡ false = ground arith in
              let optional : (pb_htype field.type == Htype.optional) ≡ false = ground arith in
              let off : IsOutside x it.p_data (field.data_size * field.array_size) =
                rw e at off_data in
              let fits' = rw e at fits in
              let small' = rw e at small in
              rw (e, required, optional)
                (Keeps-if x (wire_type == wt_string && _) (decode_packed func it)
                  (decode_item func it) t (decode_packed-Keeps off fits' small' t)
                  (decode_item-Keeps off fits' small' t))
          | inr n ↦
              let off : IsOutside x it.p_data field.data_size = rw n at off_data in
              let value : (u : Target) → Keeps x u (func field it.p_data u) =
                λ u. inside x it.p_data u off in
              rw (n, plain)
                (Keeps-if x (pb_htype field.type == Htype.required) (func field it.p_data) _ t
                  (value t)
                  (Keeps-if x (pb_htype field.type == Htype.optional) _ _ t
                    (Keeps-bind x (if flagged then assign 1 it.p_size 1 else return tt)
                      (λ _. func field it.p_data) t
                      (Keeps-if x flagged (assign 1 it.p_size 1) (return tt) t
                        (store-outside t.memory 1 it.p_size 1 x one) refl)
                      (λ a u. value u))
                    (Keeps-if x (pb_htype field.type == Htype.oneof) _ (refuse invalid_field_type) t
                      (Keeps-bind x (assign 4 it.p_size field.tag)
                        (λ _. return tt >> func field it.p_data) t
                        (store-outside t.memory 4 it.p_size field.tag x off_count) (λ a u. value u))
                      (Keeps-refuse x invalid_field_type t))))
        ]

-- On every stream and memory, at every wire type and with every outcome, `decode_static_field`
-- of a number field, required, optional, in a union, packed or one entry at a time, changes no
-- byte outside the field's data and the four bytes of its count or flag, if the data ends below
-- 2 ^ 64 and is shorter than 2 ^ 32 bytes, and a field of a fixed width has room for its word.
pub decode_static_field-Keeps :
    (realloc : Realloc) (submessage : FieldDecoder) (defaults : ℕ → ℕ → MemoryAction (Unit {0}))
    (it : PbFieldIter) (wire_type x : ℕ) (t : Target)
    → IsWide (current it)
    → leb (pb_ltype (current it).type) Ltype.last_packable ≡ true
    → it.p_data + data_bytes (current it) < 2 ^ 64
    → data_bytes (current it) < 2 ^ 32
    → IsOutside x it.p_data (data_bytes (current it))
    → IsOutside x it.p_size 4
    → Keeps x t (
        decode_static_field
          (pb_decoders realloc submessage (pb_ltype (current it).type))
          it
          defaults
          wire_type
          t)
decode_static_field-Keeps realloc submessage defaults it wire_type x t wide number fits small
      off_data off_count =
    static-Keeps (pb_decoders realloc submessage (pb_ltype (current it).type)) it x
      (pb_decoders-StaysInside (current it) wide realloc submessage number) off_count off_data fits
      small number defaults wire_type t
