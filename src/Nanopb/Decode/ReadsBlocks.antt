-- ===== src/Nanopb/Decode/ReadsBlocks.antt =====
-- ios/Pods/nanopb/pb_decode.c: what the decoders of byte arrays and strings read from a memory
-- buffer and store, in fields of static allocation.
use spar_somnong.Common.{
  ℕ, ◌+◌, ◌-◌, ◌%◌, ◌^◌, ◌<◌, ◌≤◌, ◌≡◌, refl, true, false, ◌==◌, ==_refl, List, [], ◌∷◌, ◌++◌,
  length, length-append, append_assoc, ok, arith, ltb, All,
}
use spar_somnong.Nanopb.Types.{PbField, u32, u64, pb_atype, pb_size_max}
use spar_somnong.Nanopb.Atype
use spar_somnong.Nanopb.Memory.{Memory, load_bytes, bytes_array_bytes}
use spar_somnong.Nanopb.Wire.{varint64, delimited}
use spar_somnong.Nanopb.Istream.Reads.{input}
use spar_somnong.Nanopb.Istream.Varints.{pb_decode_varint32}
use spar_somnong.Nanopb.Istream.Reads32.{pb_decode_varint32-Reads}
use spar_somnong.Nanopb.Istream.ReadsValues.{pb_read-Reads}
use spar_somnong.Nanopb.Decode.Target.{Target, store, store_byte, store_bytes}
use spar_somnong.Nanopb.Decode.Allocate.{Realloc}
use spar_somnong.Nanopb.Decode.Blocks.{
  read_to, room_for, dec_bytes_of, pb_dec_bytes, dec_string_of, pb_dec_string, dec_fixed_length_of,
  pb_dec_fixed_length_bytes,
}

-- A stream over a memory buffer, and a memory.
abbrev pub buffered : List ℕ → ℕ → Memory → Target
buffered src k mem = record { stream = input src k; memory = mem }

read_to_lem :
    (bs rest : List ℕ) (k dest size : ℕ) (into : Memory)
    → length bs ≡ size
    → length bs ≤ k
    → read_to dest size (buffered (bs ++ rest) k into)
      ≡ (ok tt, buffered rest (k - length bs) (store_bytes into dest bs))
unfolding read_to
read_to_lem bs rest k dest size into e h = rw (← e, pb_read-Reads true bs rest k h) refl

pub store_bytes-below :
    (mem : Memory) (a x : ℕ) (bs : List ℕ) → x < a → store_bytes mem a bs x ≡ mem x
unfolding store_bytes
store_bytes-below mem a x [] h = refl
store_bytes-below mem a x (b ∷ bs) h =
    let other : (x == a) ≡ false = ground arith in
    rw (store_bytes-below (store_byte mem a b) (a + 1) x bs (omega arith), other) refl

-- The bytes that were stored are read back.
pub load_bytes-store_bytes :
    (mem : Memory) (a : ℕ) (bs : List ℕ)
    → All (λ b. b < 256) bs
    → load_bytes (store_bytes mem a bs) (length bs) a ≡ bs
unfolding load_bytes store_bytes
load_bytes-store_bytes mem a [] h = refl
load_bytes-store_bytes mem a (b ∷ bs) h =
    let here : store_bytes (store_byte mem a b) (a + 1) bs a ≡ b % 256 =
      rw (store_bytes-below (store_byte mem a b) (a + 1) a bs (omega arith), ==_refl a) refl in
    let byte : b % 256 % 256 ≡ b = omega (arith, h.0) in
    rw (here, byte, load_bytes-store_bytes (store_byte mem a b) (a + 1) bs h.1) refl

-- The length in front of a payload.
length_lem :
    (bs rest : List ℕ) (k : ℕ)
    → length bs < 2 ^ 32
    → length (delimited bs) ≤ k
    → pb_decode_varint32 (input (delimited bs ++ rest) k)
      ≡ (ok (length bs), input (bs ++ rest) (k - length (varint64 (length bs))))
length_lem bs rest k small h = rw (append_assoc (varint64 (length bs)) bs rest) (
    pb_decode_varint32-Reads (length bs) small (bs ++ rest) k
      (omega (arith, length-append (varint64 (length bs)) bs)))

module _ (bs rest : List ℕ) (k : ℕ) (small : length bs < 2 ^ 32)
    (h : length (delimited bs) ≤ k) where
  left_over : k - length (varint64 (length bs)) - length bs ≡ k - length (delimited bs)
  left_over = omega (arith, length-append (varint64 (length bs)) bs)

  enough : length bs ≤ k - length (varint64 (length bs))
  enough = omega (arith, length-append (varint64 (length bs)) bs)

  block_lem :
      (dest : ℕ) (into : Memory)
      → read_to dest (length bs) (buffered (bs ++ rest) (k - length (varint64 (length bs))) into)
        ≡ (ok tt, buffered rest (k - length (delimited bs)) (store_bytes into dest bs))
  block_lem dest into =
      rw left_over at
        (read_to_lem bs rest (k - length (varint64 (length bs))) dest (length bs) into refl enough)

  pub fixed_length_lem :
      (field : PbField) (dest : ℕ) (into : Memory)
      → field.data_size ≡ length bs
      → 0 < length bs
      → pb_dec_fixed_length_bytes field dest (buffered (delimited bs ++ rest) k into)
        ≡ (ok tt, buffered rest (k - length (delimited bs)) (store_bytes into dest bs))
  unfolding pb_dec_fixed_length_bytes dec_fixed_length_of
  fixed_length_lem field dest into e pos =
      let fits : ltb pb_size_max (length bs) ≡ false = ground arith in
      let some_bytes : (length bs == 0) ≡ false = ground arith in
      rw (length_lem bs rest k small h, fits, some_bytes, e, ==_refl (length bs))
        (block_lem dest into)

  -- A field of static allocation with room for the bytes and the terminator.
  pub string_lem :
      (realloc : Realloc) (field : PbField) (dest : ℕ) (into : Memory)
      → pb_atype field.type ≡ Atype.static
      → length bs + 1 < 2 ^ 32
      → length bs < field.data_size
      → pb_dec_string realloc field dest (buffered (delimited bs ++ rest) k into) ≡ (
        ok tt,
        buffered rest
            (k - length (delimited bs))
            (store (store_bytes into dest bs) 1 (dest + length bs) 0),
      )
  unfolding pb_dec_string dec_string_of room_for
  string_lem realloc field dest into static short room =
      let alloc : u32 (length bs + 1) ≡ length bs + 1 = omega arith in
      let no_wrap : ltb (length bs + 1) (length bs) ≡ false = ground arith in
      let fits : ltb field.data_size (length bs + 1) ≡ false = ground arith in
      rw (length_lem bs rest k small h, alloc, no_wrap, static, fits, block_lem dest into) refl

  -- A field of static allocation with room for the size and the bytes.
  pub bytes_lem :
      (realloc : Realloc) (field : PbField) (dest : ℕ) (into : Memory)
      → pb_atype field.type ≡ Atype.static
      → length bs + bytes_array_bytes ≤ field.data_size
      → pb_dec_bytes realloc field dest (buffered (delimited bs ++ rest) k into) ≡ (
        ok tt,
        buffered rest
            (k - length (delimited bs))
            (store_bytes (store into 4 dest (length bs)) (dest + bytes_array_bytes) bs),
      )
  unfolding pb_dec_bytes dec_bytes_of room_for
  bytes_lem realloc field dest into static room =
      let alloc : u64 (length bs + 4) ≡ length bs + 4 = omega arith in
      let in_range : ltb pb_size_max (length bs) ≡ false = ground arith in
      let no_wrap : ltb (length bs + 4) (length bs) ≡ false = ground arith in
      let fits : ltb field.data_size (length bs + 4) ≡ false = ground arith in
      rw (length_lem bs rest k small h, alloc, in_range, no_wrap, static, fits)
        (block_lem (dest + bytes_array_bytes) (store into 4 dest (length bs)))
