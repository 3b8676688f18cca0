-- ===== src/Nanopb/Istream/ProgressValues.antt =====
-- ios/Pods/nanopb/pb_decode.c: the varint readers and skipping come to an end on every stream.
use spar_somnong.Common.{
  ℕ, zero, suc, ◌+◌, ◌*◌, ◌<◌, ◌≡◌, refl, true, false, Bool-cases, inl, inr, not, ◌&&◌, ◌==◌, leb,
  Outcome, ok, return, arith, bit_and,
}
use spar_somnong.Nanopb.Types.{
  u8, wt_varint, wt_64bit, wt_string, wt_32bit, varint_overflow, invalid_wire_type,
}
use spar_somnong.Nanopb.Istream.{Istream, raise, pb_read, pb_readbyte, first_byte}
use spar_somnong.Nanopb.Istream.Varints.{
  bad_extension, varint32_add, varint32_end, varint32_loop, varint32_rest, varint32_first,
  pb_decode_varint32_eof, pb_decode_varint32, varint_loop, pb_decode_varint,
}
use spar_somnong.Nanopb.Istream.Values.{
  skip_varint_loop, pb_skip_varint, pb_skip_string, skip_bytes, pb_skip_field,
}
use spar_somnong.Nanopb.Istream.Progress.{
  Progress, returned, gave_up, Progress-raise, Progress-return, Progress-later, Progress-weaken,
  Progress-if, Progress-either, Progress-bind, pb_readbyte-Progress, pb_read-Progress,
  pb_read_one-Progress,
}

varint32_loop-Progress :
    (fuel bitpos result : ℕ) (s : Istream)
    → s.bytes_left < fuel
    → Progress 0 s (varint32_loop fuel bitpos result s)
unfolding varint32_loop varint32_end
varint32_loop-Progress zero bitpos result s h = absurd (omega arith)
varint32_loop-Progress (suc fuel) bitpos result s h = Progress-weaken 1 0 s _ (omega arith) (
    Progress-bind pb_readbyte _ 1 s (pb_readbyte-Progress s) (λ byte t le.
      Progress-if (leb 32 bitpos && bad_extension bitpos result byte) (raise varint_overflow) _
        (Progress-raise 0 t varint_overflow)
        (Progress-if (bit_and byte 0x80 == 0)
          (varint32_end (u8 (bitpos + 7)) byte (varint32_add bitpos result byte))
          (varint32_loop fuel (u8 (bitpos + 7)) (varint32_add bitpos result byte))
          (Progress-if (u8 (bitpos + 7) == 35 && not (bit_and byte 0x70 == 0))
            (raise varint_overflow) (return (varint32_add bitpos result byte))
            (Progress-raise 0 t varint_overflow) (Progress-return _ t))
          (varint32_loop-Progress fuel (u8 (bitpos + 7)) (varint32_add bitpos result byte) t
            (omega arith)))))

pub varint32_rest-Progress : (byte : ℕ) (s : Istream) → Progress 0 s (varint32_rest byte s)
unfolding varint32_rest
varint32_rest-Progress byte s =
    Progress-either (bit_and byte 0x80 == 0) (ok byte, s)
      (varint32_loop (suc s.bytes_left) 7 (bit_and byte 0x7F) s) (Progress-return byte s)
      (varint32_loop-Progress (suc s.bytes_left) 7 (bit_and byte 0x7F) s (omega arith))

-- On every stream, a user's included, `pb_decode_varint32` comes to an end: it returns and has
-- taken at least one byte, or fails and has given none back.
pub pb_decode_varint32-Progress : (s : Istream) → Progress 1 s (pb_decode_varint32 s)
unfolding pb_decode_varint32 pb_decode_varint32_eof
pb_decode_varint32-Progress s = first (pb_readbyte s) (pb_readbyte-Progress s)
  where
    first :
        (r : Outcome ℕ × Istream)
        → Progress 1 s r
        → Progress 1 s ((varint32_first r).0, (varint32_first r).2)
    first r (returned byte t h e) = rw e (
        Progress-later 1 1 s t (varint32_rest byte t) h (omega arith)
          (varint32_rest-Progress byte t))
    first r (gave_up t h e) = rw e (gave_up t h refl)

pub varint_loop-Progress :
    (fuel bitpos result : ℕ) (s : Istream)
    → 63 < bitpos + 7 * fuel
    → bitpos < 71
    → Progress 0 s (varint_loop (suc fuel) bitpos result s)
unfolding varint_loop
varint_loop-Progress zero bitpos result s h small =
    let over : leb 64 bitpos ≡ true = ground arith in rw over (Progress-raise 0 s varint_overflow)
varint_loop-Progress (suc fuel) bitpos result s h small = elim (Bool-cases (leb 64 bitpos)) [
  | inl e ↦ rw e (Progress-raise 0 s varint_overflow)
  | inr n ↦ rw n (
      Progress-weaken 1 0 s _ (omega arith) (
        Progress-bind pb_readbyte _ 1 s (pb_readbyte-Progress s) (λ byte t le.
          Progress-if (bit_and byte 0x80 == 0) (return _)
            (varint_loop (suc fuel) (u8 (bitpos + 7)) _) (Progress-return _ t)
            (varint_loop-Progress fuel (u8 (bitpos + 7)) _ t (ground arith) (ground arith)))))
]

-- On every stream, a user's included, `pb_decode_varint` comes to an end: it returns or fails,
-- and the stream has no more bytes left than before.
pub pb_decode_varint-Progress : (s : Istream) → Progress 0 s (pb_decode_varint s)
unfolding pb_decode_varint
pb_decode_varint-Progress s = varint_loop-Progress 10 0 0 s (omega arith) (omega arith)

skip_varint_loop-Progress :
    (fuel : ℕ) (s : Istream) → s.bytes_left < fuel → Progress 0 s (skip_varint_loop fuel s)
unfolding skip_varint_loop
skip_varint_loop-Progress zero s h = absurd (omega arith)
skip_varint_loop-Progress (suc fuel) s h = Progress-weaken 1 0 s _ (omega arith) (
    Progress-bind (pb_read true 1) _ 1 s (pb_read_one-Progress s) (λ bytes t le.
      Progress-if (bit_and (first_byte bytes) 0x80 == 0) (return tt) (skip_varint_loop fuel)
        (Progress-return tt t) (skip_varint_loop-Progress fuel t (omega arith))))

skip_bytes-Progress : (count : ℕ) (s : Istream) → Progress 0 s (skip_bytes count s)
unfolding skip_bytes
skip_bytes-Progress count s =
    Progress-bind (pb_read false count) (λ _. return tt) 0 s (pb_read-Progress false count s)
      (λ a t le. Progress-return tt t)

pb_skip_string-Progress : (s : Istream) → Progress 0 s (pb_skip_string s)
unfolding pb_skip_string
pb_skip_string-Progress s = Progress-weaken 1 0 s _ (omega arith) (
    Progress-bind pb_decode_varint32 _ 1 s (pb_decode_varint32-Progress s) (λ size t le.
      Progress-bind (pb_read false size) (λ _. return tt) 0 t (pb_read-Progress false size t)
        (λ a u le'. Progress-return tt u)))

-- On every stream, a user's included, and at every wire type `pb_skip_field` comes to an end:
-- it returns or fails, and the stream has no more bytes left than before.
pub pb_skip_field-Progress :
    (wire_type : ℕ) (s : Istream) → Progress 0 s (pb_skip_field wire_type s)
unfolding pb_skip_field pb_skip_varint
pb_skip_field-Progress wire_type s =
    Progress-if (wire_type == wt_varint) pb_skip_varint _
      (skip_varint_loop-Progress (suc s.bytes_left) s (omega arith))
      (Progress-if (wire_type == wt_64bit) (skip_bytes 8) _ (skip_bytes-Progress 8 s) (
        Progress-if (wire_type == wt_string) pb_skip_string _ (pb_skip_string-Progress s) (
          Progress-if (wire_type == wt_32bit) (skip_bytes 4) (raise invalid_wire_type)
            (skip_bytes-Progress 4 s) (Progress-raise 0 s invalid_wire_type))))
