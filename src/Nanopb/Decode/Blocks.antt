-- ===== src/Nanopb/Decode/Blocks.antt =====
-- ios/Pods/nanopb/pb_decode.c: the decoders of byte arrays and strings.
use spar_somnong.Common.{ℕ, ◌+◌, true, ◌==◌, ltb, if◌then◌else◌, Outcome, ok, ◌>>=◌, ◌>>◌, return}
use spar_somnong.Nanopb.Types.{
  PbField, u32, u64, pb_atype, pb_size_max, bytes_overflow, size_too_large, string_overflow,
  incorrect_fixed_length,
}
use spar_somnong.Nanopb.Atype
use spar_somnong.Nanopb.Memory.{load_pointer, bytes_array_bytes}
use spar_somnong.Nanopb.Istream.{pb_read}
use spar_somnong.Nanopb.Istream.Varints.{pb_decode_varint32}
use spar_somnong.Nanopb.Decode.Target.{
  Target, FieldAction, on_stream, refuse, store, assign, assign_bytes,
}
use spar_somnong.Nanopb.Decode.Allocate.{Realloc, allocate_field}
use spar_somnong.Nanopb.Decode.Numbers.{FieldDecoder}

-- `pb_read` to an address.
unfoldable pub read_to : ℕ → ℕ → FieldAction (Unit {0})
read_to dest size = do bytes ← on_stream (pb_read true size); assign_bytes dest bytes

-- What `*(void**)dest` holds.
abbrev pub pointer_at : ℕ → FieldAction ℕ
pointer_at dest t = (ok (load_pointer t.memory dest), t)

-- `memset(dest, 0, n)`
abbrev pub clear : ℕ → ℕ → FieldAction (Unit {0})
clear n dest = assign n dest 0

module _ (realloc : Realloc) where
  -- Where the data goes: to an allocation of `alloc_size` bytes, or to the field if it has room.
  unfoldable pub room_for : PbField → ℕ → ℕ → FieldAction ℕ → FieldAction ℕ
  room_for field dest alloc_size overflow =
      if pb_atype field.type == Atype.pointer
      then (allocate_field realloc dest alloc_size 1 >> pointer_at dest)
      else (if ltb field.data_size alloc_size then overflow else return dest)

  unfoldable pub dec_bytes_of : PbField → ℕ → ℕ → FieldAction (Unit {0})
  dec_bytes_of field dest size =
      let alloc_size = u64 (size + bytes_array_bytes) in
      if ltb pb_size_max size
      then refuse bytes_overflow
      else (if ltb alloc_size size
          then refuse size_too_large
          else (room_for field dest alloc_size (refuse bytes_overflow) >>= λ bdest.
              assign 4 bdest size >> read_to (bdest + bytes_array_bytes) size))

  unfoldable pub pb_dec_bytes : FieldDecoder
  pb_dec_bytes field dest = do size ← on_stream pb_decode_varint32; dec_bytes_of field dest size

  -- The terminator is stored whether the read succeeded or not.
  abbrev pub terminate_string : ℕ → Outcome (Unit {0}) × Target → Outcome (Unit {0}) × Target
  terminate_string a (status, t) = (status, record t { memory = store t.memory 1 a 0 })

  unfoldable pub dec_string_of : PbField → ℕ → ℕ → FieldAction (Unit {0})
  dec_string_of field dest size =
      let alloc_size = u32 (size + 1) in
      if ltb alloc_size size
      then refuse size_too_large
      else (room_for field dest alloc_size (refuse string_overflow) >>= λ to t.
          terminate_string (to + size) (read_to to size t))

  unfoldable pub pb_dec_string : FieldDecoder
  pb_dec_string field dest = do size ← on_stream pb_decode_varint32; dec_string_of field dest size

-- The length on the wire is the field's, or zero for all zeros.
unfoldable pub dec_fixed_length_of : PbField → ℕ → ℕ → FieldAction (Unit {0})
dec_fixed_length_of field dest size =
    if ltb pb_size_max size
    then refuse bytes_overflow
    else (if size == 0
        then clear field.data_size dest
        else (if size == field.data_size
            then read_to dest field.data_size
            else refuse incorrect_fixed_length))

unfoldable pub pb_dec_fixed_length_bytes : FieldDecoder
pb_dec_fixed_length_bytes field dest = do
  size ← on_stream pb_decode_varint32
  dec_fixed_length_of field dest size
