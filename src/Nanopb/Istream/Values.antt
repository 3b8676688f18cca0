-- ===== src/Nanopb/Istream/Values.antt =====
-- ios/Pods/nanopb/pb_decode.c: skipping fields, tags, substreams, signed varints and words.
use spar_somnong.Common.{
  ℕ, zero, suc, ◌-◌, ◌*◌, ◌/◌, ◌^◌, bit_and, bit_or, true, false, List, [], ◌∷◌, get_or, ltb, ◌==◌,
  if◌then◌else◌, Outcome, ok, failed, fault, out_of_fuel, ◌>>=◌, return, exhausted, fail,
}
use spar_somnong.Nanopb.Types.{
  u32, invalid_wire_type, parent_stream_too_short, wt_varint, wt_64bit, wt_string, wt_32bit,
}
use spar_somnong.Nanopb.Istream.{Istream, Decoder, raise, pb_read, first_byte}
use spar_somnong.Nanopb.Istream.Varints.{
  EofOutcome, pb_decode_varint32_eof, pb_decode_varint32, pb_decode_varint,
}

unfoldable pub skip_varint_loop : ℕ → Decoder (Unit {0})
skip_varint_loop zero = exhausted
skip_varint_loop (suc fuel) = do
  bytes ← pb_read true 1
  let more = skip_varint_loop fuel
  if bit_and (first_byte bytes) 0x80 == 0 then return tt else more

unfoldable pub pb_skip_varint : Decoder (Unit {0})
pb_skip_varint s = skip_varint_loop (suc s.bytes_left) s

unfoldable pub pb_skip_string : Decoder (Unit {0})
pb_skip_string = do length ← pb_decode_varint32; _ ← pb_read false length; return tt

-- Wire type and field number; `*eof` is true at the end of the input and at a zero tag.
abbrev pub split_tag : EofOutcome ℕ → EofOutcome (ℕ × ℕ)
split_tag (ok temp, eof, s) =
    if temp == 0 then (failed, true, s) else (ok (bit_and temp 7, u32 temp / 2 ^ 3), eof, s)
split_tag (failed, eof, s) = (failed, eof, s)
split_tag (fault, eof, s) = (fault, eof, s)
split_tag (out_of_fuel, eof, s) = (out_of_fuel, eof, s)

unfoldable pub pb_decode_tag : Istream → EofOutcome (ℕ × ℕ)
pb_decode_tag s = split_tag (pb_decode_varint32_eof s)

unfoldable pub skip_bytes : ℕ → Decoder (Unit {0})
skip_bytes count = do _ ← pb_read false count; return tt

unfoldable pub pb_skip_field : ℕ → Decoder (Unit {0})
pb_skip_field wire_type =
    if wire_type == wt_varint
    then pb_skip_varint
    else (if wire_type == wt_64bit
        then skip_bytes 8
        else (if wire_type == wt_string
            then pb_skip_string
            else (if wire_type == wt_32bit then skip_bytes 4 else raise invalid_wire_type)))

-- The varint case of `read_raw_value`, with `size` bytes read and room for `left` more.
unfoldable pub read_raw_varint : ℕ → Decoder (List ℕ)
read_raw_varint zero = fail
read_raw_varint (suc left) = do
  bytes ← pb_read true 1
  let more = do rest ← read_raw_varint left; return (first_byte bytes ∷ rest)
  if bit_and (first_byte bytes) 0x80 == 0 then return (first_byte bytes ∷ []) else more

unfoldable pub read_raw_value : ℕ → ℕ → Decoder (List ℕ)
read_raw_value wire_type max_size =
    if wire_type == wt_varint
    then read_raw_varint max_size
    else (if wire_type == wt_64bit
        then pb_read true 8
        else (if wire_type == wt_32bit then pb_read true 4 else raise invalid_wire_type))

-- The parent keeps its pointer in front of the payload until the substream is closed.
unfoldable pub pb_make_string_substream : Decoder Istream
pb_make_string_substream = do
  size ← pb_decode_varint32
  λ s.
      if ltb s.bytes_left size
      then raise parent_stream_too_short s
      else (ok (record s { bytes_left = size }), record s { bytes_left = s.bytes_left - size })

abbrev pub adopt : Outcome (List ℕ) × Istream → Decoder (Unit {0})
adopt (ok _, sub) s = (ok tt, record s { state = sub.state; errmsg = sub.errmsg })
adopt (failed, sub) s = (failed, s)
adopt (fault, sub) s = (fault, s)
adopt (out_of_fuel, sub) s = (out_of_fuel, s)

unfoldable pub pb_close_string_substream : Istream → Decoder (Unit {0})
pb_close_string_substream sub =
    adopt (if sub.bytes_left == 0 then (ok [], sub) else pb_read false sub.bytes_left sub)

-- The result is the bit pattern of an int64_t.
unfoldable pub unzigzag : ℕ → ℕ
unzigzag value = if bit_and value 1 == 0 then value / 2 else 2 ^ 64 - 1 - value / 2

unfoldable pub pb_decode_svarint : Decoder ℕ
pb_decode_svarint = do value ← pb_decode_varint; return (unzigzag value)

abbrev pub byte_at : List ℕ → ℕ → ℕ
byte_at bs i = get_or bs i 0

unfoldable pub word32 : List ℕ → ℕ
word32 bs =
    bit_or (bit_or (bit_or (byte_at bs 0) (byte_at bs 1 * 2 ^ 8)) (byte_at bs 2 * 2 ^ 16))
      (byte_at bs 3 * 2 ^ 24)

unfoldable pub word64 : List ℕ → ℕ
word64 bs =
    bit_or
      (bit_or (bit_or (bit_or (word32 bs) (byte_at bs 4 * 2 ^ 32)) (byte_at bs 5 * 2 ^ 40))
        (byte_at bs 6 * 2 ^ 48))
      (byte_at bs 7 * 2 ^ 56)

unfoldable pub pb_decode_fixed32 : Decoder ℕ
pb_decode_fixed32 = do bytes ← pb_read true 4; return (word32 bytes)

unfoldable pub pb_decode_fixed64 : Decoder ℕ
pb_decode_fixed64 = do bytes ← pb_read true 8; return (word64 bytes)
