-- ===== src/Nanopb/Istream/ProgressSubstream.antt =====
-- ios/Pods/nanopb/pb_decode.c: on every stream tags, raw values, signed varints, words and
-- substreams come to an end.
use spar_somnong.Common.{
  ℕ, zero, suc, ◌+◌, ◌^◌, ◌<◌, ◌≤◌, ◌≡◌, refl, Bool, true, false, Bool-cases, inl, inr, ◌==◌, ltb,
  Outcome, ok, failed, return, List, [], ◌∷◌, arith, bit_and,
}
use spar_somnong.Nanopb.Types.{
  u8, wt_varint, wt_64bit, wt_32bit, invalid_wire_type, parent_stream_too_short,
}
use spar_somnong.Nanopb.Istream.{Istream, raise, pb_read, pb_readbyte, first_byte}
use spar_somnong.Nanopb.Istream.Varints.{
  EofOutcome, varint32_first, varint32_rest, pb_decode_varint32_eof, pb_decode_varint32,
  pb_decode_varint, varint_loop,
}
use spar_somnong.Nanopb.Istream.Values.{
  split_tag, pb_decode_tag, read_raw_varint, read_raw_value, pb_make_string_substream, adopt,
  pb_close_string_substream, pb_decode_svarint, pb_decode_fixed32, pb_decode_fixed64,
}
use spar_somnong.Nanopb.Istream.Progress.{
  Progress, returned, gave_up, Progress-raise, Progress-return, Progress-weaken, Progress-if,
  Progress-bind, pb_readbyte-Progress, pb_read-Progress, pb_read_one-Progress, read_now-Progress,
}
use spar_somnong.Nanopb.Istream.ProgressValues.{
  varint32_rest-Progress, pb_decode_varint32-Progress, varint_loop-Progress,
}

-- What `pb_decode_tag` gives: a field number of a uint32_t without its three low bits and at least
-- a byte less on the stream, or a failure.
pub data Tagged (s : Istream) (r : EofOutcome (ℕ × ℕ)) : Type 0 where
  tagged :
      (wire_type tag : ℕ) (eof : Bool) (u : Istream)
      → tag < 2 ^ 29
      → u.bytes_left + 1 ≤ s.bytes_left
      → r ≡ (ok (wire_type, tag), eof, u)
      → Tagged s r
  untagged :
      (eof : Bool) (u : Istream) → u.bytes_left ≤ s.bytes_left → r ≡ (failed, eof, u) → Tagged s r

pub pb_decode_tag-Tagged : (s : Istream) → Tagged s (pb_decode_tag s)
unfolding pb_decode_tag pb_decode_varint32_eof
pb_decode_tag-Tagged s = first (pb_readbyte s) (pb_readbyte-Progress s)
  where
    number :
        (temp : ℕ) (eof : Bool) (u : Istream)
        → u.bytes_left + 1 ≤ s.bytes_left
        → Tagged s (split_tag (ok temp, eof, u))
    number temp eof u le = elim (Bool-cases (temp == 0)) [
      | inl e ↦ rw e (untagged true u (omega arith) refl)
      | inr n ↦ rw n (tagged _ _ eof u (omega arith) le refl)
    ]

    rest :
        (t : Istream)
        → t.bytes_left + 1 ≤ s.bytes_left
        → (r : Outcome ℕ × Istream) → Progress 0 t r
        → Tagged s (split_tag (r.0, false, r.1))
    rest t le r (returned temp u h e) = rw e (number temp false u (omega arith))
    rest t le r (gave_up u h e) = rw e (untagged false u (omega arith) refl)

    first : (r : Outcome ℕ × Istream) → Progress 1 s r → Tagged s (split_tag (varint32_first r))
    first r (returned byte t h e) =
        rw e (rest t h (varint32_rest byte t) (varint32_rest-Progress byte t))
    first r (gave_up t h e) = rw e (untagged _ t h refl)

read_raw_varint-Progress : (left : ℕ) (s : Istream) → Progress 0 s (read_raw_varint left s)
unfolding read_raw_varint
read_raw_varint-Progress zero s = gave_up s (omega arith) refl
read_raw_varint-Progress (suc left) s = Progress-weaken 1 0 s _ (omega arith) (
    Progress-bind (pb_read true 1) _ 1 s (pb_read_one-Progress s) (λ bytes t le.
      Progress-if (bit_and (first_byte bytes) 0x80 == 0) (return (first_byte bytes ∷ [])) _
        (Progress-return _ t)
        (Progress-bind (read_raw_varint left) (λ rest. return (first_byte bytes ∷ rest)) 0 t
          (read_raw_varint-Progress left t) (λ rest u h. Progress-return _ u))))

pub read_raw_value-Progress :
    (wire_type max_size : ℕ) (s : Istream) → Progress 0 s (read_raw_value wire_type max_size s)
unfolding read_raw_value
read_raw_value-Progress wire_type max_size s =
    Progress-if (wire_type == wt_varint) (read_raw_varint max_size) _
      (read_raw_varint-Progress max_size s)
      (Progress-if (wire_type == wt_64bit) (pb_read true 8) _ (pb_read-Progress true 8 s) (
        Progress-if (wire_type == wt_32bit) (pb_read true 4) (raise invalid_wire_type)
          (pb_read-Progress true 4 s) (Progress-raise 0 s invalid_wire_type)))

-- Numbers of a fixed width take their bytes, which a packed array relies on.
pub pb_decode_fixed32-Progress : (s : Istream) → Progress 1 s (pb_decode_fixed32 s)
unfolding pb_decode_fixed32 pb_read
pb_decode_fixed32-Progress s = Progress-weaken 4 1 s _ (omega arith) (
    Progress-bind (pb_read true 4) _ 4 s (read_now-Progress 4 s)
      (λ bytes t le. Progress-return _ t))

pub pb_decode_fixed64-Progress : (s : Istream) → Progress 1 s (pb_decode_fixed64 s)
unfolding pb_decode_fixed64 pb_read
pb_decode_fixed64-Progress s = Progress-weaken 8 1 s _ (omega arith) (
    Progress-bind (pb_read true 8) _ 8 s (read_now-Progress 8 s)
      (λ bytes t le. Progress-return _ t))

-- Varints of 64 bits take a byte where they return.
pub pb_decode_varint-Takes : (s : Istream) → Progress 1 s (pb_decode_varint s)
unfolding pb_decode_varint varint_loop
pb_decode_varint-Takes s = Progress-bind pb_readbyte _ 1 s (pb_readbyte-Progress s) (λ byte t le.
    Progress-if (bit_and byte 0x80 == 0) (return _) (varint_loop 10 (u8 7) _) (Progress-return _ t)
      (varint_loop-Progress 9 (u8 7) _ t (omega arith) (omega arith)))

pub pb_decode_svarint-Progress : (s : Istream) → Progress 1 s (pb_decode_svarint s)
unfolding pb_decode_svarint
pb_decode_svarint-Progress s =
    Progress-bind pb_decode_varint _ 1 s (pb_decode_varint-Takes s) (λ v t le. Progress-return _ t)

-- A substream has at most the bytes that the stream had, and what it has the stream lost.
pub pb_make_string_substream-Progress : (s : Istream) → Progress 1 s (pb_make_string_substream s)
unfolding pb_make_string_substream
pb_make_string_substream-Progress s =
    Progress-bind pb_decode_varint32 _ 1 s (pb_decode_varint32-Progress s) (λ size t le.
      elim (Bool-cases (ltb t.bytes_left size)) [
        | inl e ↦ rw e (Progress-raise 0 t parent_stream_too_short)
        | inr n ↦ rw n (returned _ _ (omega arith) refl)
      ])

-- Closing leaves the parent what it had.
pub pb_close_string_substream-Progress :
    (sub s : Istream) → Progress 0 s (pb_close_string_substream sub s)
unfolding pb_close_string_substream
pb_close_string_substream-Progress sub s = elim (Bool-cases (sub.bytes_left == 0)) [
  | inl e ↦ rw e (returned tt _ (omega arith) refl)
  | inr n ↦
      rw n (closed (pb_read false sub.bytes_left sub) (pb_read-Progress false sub.bytes_left sub))
]
  where
    closed : (r : Outcome (List ℕ) × Istream) → Progress 0 sub r → Progress 0 s (adopt r s)
    closed r (returned a u h e) = rw e (returned tt _ (omega arith) refl)
    closed r (gave_up u h e) = rw e (gave_up s (omega arith) refl)
