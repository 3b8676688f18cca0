-- ===== src/Nanopb/Decode/AdvancesValues.antt =====
-- ios/Pods/nanopb/pb_decode.c: the decoders of single values, on every stream, come to an end.
use spar_somnong.Common.{
  ℕ, ◌+◌, refl, Bool, true, false, ◌||◌, ltb, ◌==◌, Outcome, return, ◌>>=◌, ◌>>◌, Option, none,
  some, arith,
}
use spar_somnong.Nanopb.Types.{
  PbField, u32, u64, pb_atype, pb_size_max, invalid_size, size_too_large, realloc_failed,
  invalid_data_size, integer_too_large, bytes_overflow, string_overflow, incorrect_fixed_length,
}
use spar_somnong.Nanopb.Atype
use spar_somnong.Nanopb.Memory.{Memory, bytes_array_bytes}
use spar_somnong.Nanopb.Istream.{pb_read}
use spar_somnong.Nanopb.Istream.Progress.{pb_read-Progress}
use spar_somnong.Nanopb.Istream.ProgressValues.{pb_decode_varint32-Progress}
use spar_somnong.Nanopb.Istream.ProgressSubstream.{
  pb_decode_varint-Takes, pb_decode_svarint-Progress, pb_decode_fixed32-Progress,
  pb_decode_fixed64-Progress,
}
use spar_somnong.Nanopb.Istream.Varints.{pb_decode_varint, pb_decode_varint32}
use spar_somnong.Nanopb.Istream.Values.{pb_decode_svarint, pb_decode_fixed32, pb_decode_fixed64}
use spar_somnong.Nanopb.Encode.Fields.{is_integer_size}
use spar_somnong.Nanopb.Decode.Target.{
  Target, FieldAction, on_stream, refuse, assign, assign_bytes, store,
}
use spar_somnong.Nanopb.Decode.Allocate.{Realloc, is_too_large, reallocated, allocate_field}
use spar_somnong.Nanopb.Decode.Numbers.{
  FieldDecoder, stored_whole, put_signed, put_unsigned, dec_varint_value, pb_dec_varint,
  pb_dec_uvarint, pb_dec_svarint, pb_dec_fixed32, pb_dec_fixed64,
}
use spar_somnong.Nanopb.Decode.Blocks.{
  read_to, pointer_at, clear, room_for, dec_bytes_of, pb_dec_bytes, terminate_string, dec_string_of,
  pb_dec_string, dec_fixed_length_of, pb_dec_fixed_length_bytes,
}
use spar_somnong.Nanopb.Decode.Advances.{
  Advances, went_on, refused, broke, Advances-refuse, Advances-return, Advances-later, Advances-if,
  Advances-either, Advances-on_stream, Advances-bind, Advances-assign,
}

stored_whole-Advances :
    (b : Bool) (size dest value : ℕ) (t : Target) → Advances 0 t (stored_whole b size dest value t)
stored_whole-Advances true size dest value t = Advances-assign size dest value t
stored_whole-Advances false size dest value t =
    Advances-later 0 0 t (record t { memory = store t.memory size dest value }) _ (omega arith)
      (omega arith) (Advances-refuse 0 _ integer_too_large)

put_signed-Advances : (size dest v : ℕ) (t : Target) → Advances 0 t (put_signed size dest v t)
unfolding put_signed
put_signed-Advances size dest v t =
    Advances-if (is_integer_size size) (stored_whole _ size dest v) (refuse invalid_data_size)
      (stored_whole-Advances _ size dest v t) (Advances-refuse 0 t invalid_data_size)

put_unsigned-Advances : (size dest v : ℕ) (t : Target) → Advances 0 t (put_unsigned size dest v t)
unfolding put_unsigned
put_unsigned-Advances size dest v t =
    Advances-if (is_integer_size size) (stored_whole _ size dest v) (refuse invalid_data_size)
      (stored_whole-Advances _ size dest v t) (Advances-refuse 0 t invalid_data_size)

-- The decoder comes to an end, and takes a byte where it returns.
abbrev pub Takes : FieldDecoder → Type 0
Takes func = (field : PbField) (dest : ℕ) (t : Target) → Advances 1 t (func field dest t)

pub pb_dec_varint-Takes : Takes pb_dec_varint
unfolding pb_dec_varint
pb_dec_varint-Takes field dest t =
    Advances-bind (on_stream pb_decode_varint)
      (λ v. put_signed field.data_size dest (dec_varint_value field.data_size v)) 1 t
      (Advances-on_stream pb_decode_varint 1 t (pb_decode_varint-Takes t.stream))
      (λ v u le. put_signed-Advances field.data_size dest _ u)

pub pb_dec_uvarint-Takes : Takes pb_dec_uvarint
unfolding pb_dec_uvarint
pb_dec_uvarint-Takes field dest t =
    Advances-bind (on_stream pb_decode_varint) (put_unsigned field.data_size dest) 1 t
      (Advances-on_stream pb_decode_varint 1 t (pb_decode_varint-Takes t.stream))
      (λ v u le. put_unsigned-Advances field.data_size dest v u)

pub pb_dec_svarint-Takes : Takes pb_dec_svarint
unfolding pb_dec_svarint
pb_dec_svarint-Takes field dest t =
    Advances-bind (on_stream pb_decode_svarint) (put_signed field.data_size dest) 1 t
      (Advances-on_stream pb_decode_svarint 1 t (pb_decode_svarint-Progress t.stream))
      (λ v u le. put_signed-Advances field.data_size dest v u)

pub pb_dec_fixed32-Takes : Takes pb_dec_fixed32
unfolding pb_dec_fixed32
pb_dec_fixed32-Takes field dest t =
    Advances-bind (on_stream pb_decode_fixed32) (assign 4 dest) 1 t
      (Advances-on_stream pb_decode_fixed32 1 t (pb_decode_fixed32-Progress t.stream))
      (λ v u le. Advances-assign 4 dest v u)

pub pb_dec_fixed64-Takes : Takes pb_dec_fixed64
unfolding pb_dec_fixed64
pb_dec_fixed64-Takes field dest t =
    Advances-bind (on_stream pb_decode_fixed64) (assign 8 dest) 1 t
      (Advances-on_stream pb_decode_fixed64 1 t (pb_decode_fixed64-Progress t.stream))
      (λ v u le. Advances-assign 8 dest v u)

reallocated-Advances :
    (p_data : ℕ) (r : Option (ℕ × Memory)) (t : Target) → Advances 0 t (reallocated p_data r t)
reallocated-Advances p_data none t = Advances-refuse 0 t realloc_failed
reallocated-Advances p_data (some (ptr, mem)) t = went_on tt _ (omega arith) refl

pub allocate_field-Advances :
    (realloc : Realloc) (p_data data_size array_size : ℕ) (t : Target)
    → Advances 0 t (allocate_field realloc p_data data_size array_size t)
unfolding allocate_field
allocate_field-Advances realloc p_data data_size array_size t =
    Advances-either (data_size == 0 || array_size == 0) (refuse invalid_size t) _
      (Advances-refuse 0 t invalid_size)
      (Advances-either (is_too_large data_size array_size) (refuse size_too_large t) _
        (Advances-refuse 0 t size_too_large) (reallocated-Advances p_data _ t))

read_to-Advances : (dest size : ℕ) (t : Target) → Advances 0 t (read_to dest size t)
unfolding read_to
read_to-Advances dest size t =
    Advances-bind (on_stream (pb_read true size)) (assign_bytes dest) 0 t
      (Advances-on_stream (pb_read true size) 0 t (pb_read-Progress true size t.stream))
      (λ bytes u le. went_on tt _ (omega arith) refl)

-- A length, and what is done with it.
sized-Advances :
    (f : ℕ → FieldAction (Unit {0})) (t : Target)
    → ((size : ℕ) (u : Target) → Advances 0 u (f size u))
    → Advances 1 t ((on_stream pb_decode_varint32 >>= f) t)
sized-Advances f t h =
    Advances-bind (on_stream pb_decode_varint32) f 1 t
      (Advances-on_stream pb_decode_varint32 1 t (pb_decode_varint32-Progress t.stream))
      (λ size u le. h size u)

module _ (realloc : Realloc) where
  room_for-Advances :
      (field : PbField) (dest alloc_size : ℕ) (overflow : FieldAction ℕ) (t : Target)
      → Advances 0 t (overflow t)
      → Advances 0 t (room_for realloc field dest alloc_size overflow t)
  unfolding room_for
  room_for-Advances field dest alloc_size overflow t h =
      Advances-if (pb_atype field.type == Atype.pointer)
        (allocate_field realloc dest alloc_size 1 >> pointer_at dest) _
        (Advances-bind (allocate_field realloc dest alloc_size 1) (λ _. pointer_at dest) 0 t
          (allocate_field-Advances realloc dest alloc_size 1 t) (λ a u le. Advances-return _ u))
        (Advances-if (ltb field.data_size alloc_size) overflow (return dest) h
          (Advances-return dest t))

  pub pb_dec_bytes-Takes : Takes (pb_dec_bytes realloc)
  unfolding pb_dec_bytes dec_bytes_of
  pb_dec_bytes-Takes field dest t = sized-Advances (dec_bytes_of realloc field dest) t (λ size u.
      Advances-if (ltb pb_size_max size) (refuse bytes_overflow) _
        (Advances-refuse 0 u bytes_overflow)
        (Advances-if (ltb (u64 (size + bytes_array_bytes)) size) (refuse size_too_large) _
          (Advances-refuse 0 u size_too_large)
          (Advances-bind
            (room_for realloc field dest (u64 (size + bytes_array_bytes)) (refuse bytes_overflow))
            (λ bdest. assign 4 bdest size >> read_to (bdest + bytes_array_bytes) size) 0 u
            (room_for-Advances field dest _ (refuse bytes_overflow) u
              (Advances-refuse 0 u bytes_overflow))
            (λ bdest v le.
              Advances-bind (assign 4 bdest size) (λ _. read_to (bdest + bytes_array_bytes) size) 0
                v (Advances-assign 4 bdest size v)
                (λ a w le'. read_to-Advances (bdest + bytes_array_bytes) size w)))))

  terminate_string-Advances :
      (a : ℕ) (t : Target) (r : Outcome (Unit {0}) × Target)
      → Advances 0 t r
      → Advances 0 t (terminate_string realloc a r)
  terminate_string-Advances a t r (went_on x u h e) = rw e (went_on tt _ h refl)
  terminate_string-Advances a t r (refused u h e) = rw e (refused _ h refl)
  terminate_string-Advances a t r (broke u h e) = rw e (broke _ h refl)

  pub pb_dec_string-Takes : Takes (pb_dec_string realloc)
  unfolding pb_dec_string dec_string_of
  pb_dec_string-Takes field dest t = sized-Advances (dec_string_of realloc field dest) t (λ size u.
      Advances-if (ltb (u32 (size + 1)) size) (refuse size_too_large) _
        (Advances-refuse 0 u size_too_large)
        (Advances-bind (room_for realloc field dest (u32 (size + 1)) (refuse string_overflow))
          (λ to v. terminate_string realloc (to + size) (read_to to size v)) 0 u
          (room_for-Advances field dest _ (refuse string_overflow) u
            (Advances-refuse 0 u string_overflow))
          (λ to v le. terminate_string-Advances (to + size) v _ (read_to-Advances to size v))))

pub pb_dec_fixed_length_bytes-Takes : Takes pb_dec_fixed_length_bytes
unfolding pb_dec_fixed_length_bytes dec_fixed_length_of
pb_dec_fixed_length_bytes-Takes field dest t =
    sized-Advances (dec_fixed_length_of field dest) t (λ size u.
      Advances-if (ltb pb_size_max size) (refuse bytes_overflow) _
        (Advances-refuse 0 u bytes_overflow)
        (Advances-if (size == 0) (clear field.data_size dest) _
          (Advances-assign field.data_size dest 0 u)
          (Advances-if (size == field.data_size) (read_to dest field.data_size)
            (refuse incorrect_fixed_length) (read_to-Advances dest field.data_size u)
            (Advances-refuse 0 u incorrect_fixed_length))))
