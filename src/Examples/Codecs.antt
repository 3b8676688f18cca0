-- ===== src/Examples/Codecs.antt =====
-- Numbers and strings on the streams of ios/Pods/nanopb.
use spar_somnong.Common.{
  none, ℕ, List, zero, suc, ◌-◌, ◌^◌, ◌≡◌, refl, [], ◌∷◌, ◌++◌, length, arith, ok, false,
}
use spar_somnong.Nanopb.Ostream.{
  pb_encode_varint, pb_encode_svarint, pb_encode_fixed32, pb_encode_fixed64, pb_encode_tag,
  pb_encode_string,
}
use spar_somnong.Nanopb.Ostream.Writes.{Writes}
use spar_somnong.Nanopb.Ostream.Values.{Writes-pb_encode_tag, Writes-pb_encode_string}
use spar_somnong.Nanopb.Wire.{varint_bytes, tag_bytes, delimited}
use spar_somnong.Nanopb.Istream.Progress.{Progress}
use spar_somnong.Nanopb.Istream.ProgressValues.{
  pb_skip_field-Progress, pb_decode_varint32-Progress, pb_decode_varint-Progress,
}
use spar_somnong.Nanopb.Istream.{Istream, user, pb_readbyte}
use spar_somnong.Nanopb.Istream.Varints.{
  pb_decode_varint32_eof, varint32_rest, varint32_loop, bad_extension, varint32_add, varint32_end,
  pb_decode_varint, pb_decode_varint32,
}
use spar_somnong.Nanopb.Istream.Values.{
  pb_decode_svarint, pb_decode_fixed32, pb_decode_fixed64, pb_decode_tag, pb_skip_field,
  pb_make_string_substream, pb_close_string_substream,
}
use spar_somnong.Nanopb.Istream.Reads.{input, Reads}
use spar_somnong.Nanopb.Istream.ReadsValues.{
  string, pb_decode_tag_lem, pb_skip_field-Reads, pb_make_string_substream_lem,
  pb_close_string_substream_lem,
}
use spar_somnong.Nanopb.RoundTrip.{
  Carries, varint-Carries, varint32-Carries, svarint-Carries, fixed32-Carries, fixed64-Carries,
}

varint-Carries_example : Carries (pb_encode_varint 300) pb_decode_varint 300
varint-Carries_example = varint-Carries 300 (omega arith)

varint32-Carries_example : Carries (pb_encode_varint 300) pb_decode_varint32 300
varint32-Carries_example = varint32-Carries 300 (omega arith)

-- The bit pattern of -2.
svarint-Carries_example : Carries (pb_encode_svarint (2 ^ 64 - 2)) pb_decode_svarint (2 ^ 64 - 2)
svarint-Carries_example = svarint-Carries (2 ^ 64 - 2) (omega arith)

fixed32-Carries_example : Carries (pb_encode_fixed32 0xDEADBEEF) pb_decode_fixed32 0xDEADBEEF
fixed32-Carries_example = fixed32-Carries 0xDEADBEEF (omega arith)

fixed64-Carries_example : Carries (pb_encode_fixed64 0x0123456789) pb_decode_fixed64 0x0123456789
fixed64-Carries_example = fixed64-Carries 0x0123456789 (omega arith)

Writes-pb_encode_tag_example : Writes (pb_encode_tag 2 16) (tag_bytes 2 16)
Writes-pb_encode_tag_example = Writes-pb_encode_tag 2 16 (omega arith) (omega arith)

Writes-pb_encode_string_example :
    Writes (pb_encode_string (104 ∷ 105 ∷ []) 2) (delimited (104 ∷ 105 ∷ []))
Writes-pb_encode_string_example = Writes-pb_encode_string (104 ∷ 105 ∷ []) (omega arith)

tag_size : length (tag_bytes 2 16) ≡ 2
unfolding varint_bytes
tag_size = refl

pb_decode_tag_example :
    pb_decode_tag (input (tag_bytes 2 16 ++ (5 ∷ [])) 3)
    ≡ (ok (2, 16), false, input (5 ∷ []) (3 - length (tag_bytes 2 16)))
pb_decode_tag_example =
    pb_decode_tag_lem 2 16 3 (5 ∷ []) (omega arith) (omega arith) (omega arith)
      (omega (arith, tag_size))

pb_skip_field-Reads_example : Reads (pb_skip_field 2) (delimited (104 ∷ 105 ∷ [])) tt
pb_skip_field-Reads_example = pb_skip_field-Reads (string (104 ∷ 105 ∷ []) (omega arith))

delimited_size : length (delimited (104 ∷ 105 ∷ [])) ≡ 3
unfolding varint_bytes
delimited_size = refl

pb_make_string_substream_example :
    pb_make_string_substream (input (delimited (104 ∷ 105 ∷ []) ++ (9 ∷ [])) 4) ≡ (
      ok (input (104 ∷ 105 ∷ 9 ∷ []) 2),
      input (104 ∷ 105 ∷ 9 ∷ []) (4 - length (delimited (104 ∷ 105 ∷ []))),
    )
pb_make_string_substream_example =
    pb_make_string_substream_lem (104 ∷ 105 ∷ []) (9 ∷ []) 4 (omega arith)
      (omega (arith, delimited_size))

pb_close_string_substream_example :
    pb_close_string_substream (input (105 ∷ 9 ∷ []) 1) (input (104 ∷ 105 ∷ 9 ∷ []) 1)
    ≡ (ok tt, input (9 ∷ []) 1)
pb_close_string_substream_example =
    pb_close_string_substream_lem (105 ∷ []) (9 ∷ []) (104 ∷ 105 ∷ 9 ∷ []) 1

-- The number of bits read so far is kept in one byte: behind 37 bytes that add nothing, the next
-- byte counts as if it began at bit 3.
abbrev zeros : ℕ → List ℕ
zeros zero = []
zeros (suc n) = 0x80 ∷ zeros n

abbrev overlong : List ℕ
overlong = zeros 37 ++ (1 ∷ [])

overlong_accepted : (pb_decode_varint32 (input overlong 38)).0 ≡ ok 8
unfolding pb_decode_varint32 pb_decode_varint32_eof varint32_rest varint32_loop bad_extension
    varint32_add varint32_end pb_readbyte
overlong_accepted = refl

-- A user's stream whose callback never delivers.
abbrev silent : Istream
silent = record {
  callback = user (λ state count. (false, [], state));
  state = [];
  bytes_left = 7;
  errmsg = none;
}

pb_skip_field-Progress_example : Progress 0 silent (pb_skip_field 2 silent)
pb_skip_field-Progress_example = pb_skip_field-Progress 2 silent

pb_decode_varint32-Progress_example : Progress 1 silent (pb_decode_varint32 silent)
pb_decode_varint32-Progress_example = pb_decode_varint32-Progress silent

pb_decode_varint-Progress_example : Progress 0 silent (pb_decode_varint silent)
pb_decode_varint-Progress_example = pb_decode_varint-Progress silent
