-- ===== src/Nanopb/RoundTrip.antt =====
-- ios/Pods/nanopb: what the encoders of pb_encode.c write, the decoders of pb_decode.c read back.
use spar_somnong.Common.{ℕ, ◌-◌, ◌*◌, ◌%◌, ◌^◌, ◌<◌, ◌≡◌, List, arith, bit_and_ones}
use spar_somnong.Nanopb.Ostream.{
  Encoder, zigzag, pb_encode_varint, pb_encode_svarint, pb_encode_fixed32, pb_encode_fixed64,
}
use spar_somnong.Nanopb.Ostream.Writes.{Writes}
use spar_somnong.Nanopb.Ostream.Values.{
  Writes-pb_encode_varint, Writes-pb_encode_svarint, Writes-pb_encode_fixed32,
  Writes-pb_encode_fixed64, zigzag-lt,
}
use spar_somnong.Nanopb.Istream.{Decoder}
use spar_somnong.Nanopb.Istream.Varints.{pb_decode_varint, pb_decode_varint32}
use spar_somnong.Nanopb.Istream.Values.{
  unzigzag, pb_decode_svarint, pb_decode_fixed32, pb_decode_fixed64,
}
use spar_somnong.Nanopb.Istream.Reads.{Reads, pb_decode_varint-Reads}
use spar_somnong.Nanopb.Istream.Reads32.{pb_decode_varint32-Reads}
use spar_somnong.Nanopb.Istream.ReadsValues.{
  pb_decode_svarint-Reads, pb_decode_fixed32-Reads, pb_decode_fixed64-Reads,
}
use spar_somnong.Nanopb.Wire.{varint64, little_endian}

-- The encoder writes some bytes, to any memory buffer with room, and the decoder reads exactly
-- these bytes, in front of anything, as `a`.
pub record Carries {ℓ} {A : Type ℓ} (enc : Encoder) (dec : Decoder A) (a : A) : Type ℓ where
  pub bytes : List ℕ
  pub writes : Writes enc bytes
  pub reads : Reads dec bytes a

-- For every uint64 `pb_encode_varint` writes bytes that `pb_decode_varint` reads back as the
-- number.
pub varint-Carries : (v : ℕ) → v < 2 ^ 64 → Carries (pb_encode_varint v) pb_decode_varint v
varint-Carries v h = record {
  bytes = varint64 v;
  writes = Writes-pb_encode_varint v h;
  reads = pb_decode_varint-Reads v h;
}

-- For every uint32 `pb_encode_varint` writes bytes that `pb_decode_varint32` reads back as the
-- number.
pub varint32-Carries : (v : ℕ) → v < 2 ^ 32 → Carries (pb_encode_varint v) pb_decode_varint32 v
varint32-Carries v h = record {
  bytes = varint64 v;
  writes = Writes-pb_encode_varint v (omega arith);
  reads = pb_decode_varint32-Reads v h;
}

-- The zigzag code of the bit pattern of any int64_t is undone.
pub unzigzag-zigzag : (v : ℕ) → v < 2 ^ 64 → unzigzag (zigzag v) ≡ v
unfolding zigzag unzigzag
unzigzag-zigzag v h =
    ground (arith, bit_and_ones 1 (2 ^ 64 - 1 - v * 2 % 2 ^ 64), bit_and_ones 1 (v * 2 % 2 ^ 64))

-- For every int64_t, given by its bit pattern, `pb_encode_svarint` writes bytes that
-- `pb_decode_svarint` reads back as the number.
pub svarint-Carries : (v : ℕ) → v < 2 ^ 64 → Carries (pb_encode_svarint v) pb_decode_svarint v
svarint-Carries v h = record {
  bytes = varint64 (zigzag v);
  writes = Writes-pb_encode_svarint v h;
  reads = rw (unzigzag-zigzag v h) at (pb_decode_svarint-Reads (zigzag v) (zigzag-lt v h));
}

-- For every uint32 `pb_encode_fixed32` writes bytes that `pb_decode_fixed32` reads back as the
-- number.
pub fixed32-Carries : (v : ℕ) → v < 2 ^ 32 → Carries (pb_encode_fixed32 v) pb_decode_fixed32 v
fixed32-Carries v h = record {
  bytes = little_endian 4 v;
  writes = Writes-pb_encode_fixed32 v;
  reads = pb_decode_fixed32-Reads v h;
}

-- For every uint64 `pb_encode_fixed64` writes bytes that `pb_decode_fixed64` reads back as the
-- number.
pub fixed64-Carries : (v : ℕ) → v < 2 ^ 64 → Carries (pb_encode_fixed64 v) pb_decode_fixed64 v
fixed64-Carries v h = record {
  bytes = little_endian 8 v;
  writes = Writes-pb_encode_fixed64 v;
  reads = pb_decode_fixed64-Reads v h;
}
