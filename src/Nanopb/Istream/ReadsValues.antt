-- ===== src/Nanopb/Istream/ReadsValues.antt =====
-- What the decoders of tags, signed varints, words, strings and skipped fields read from a memory
-- buffer.
use spar_somnong.Common.{
  ℕ, zero, suc, ◌+◌, ◌-◌, ◌*◌, ◌/◌, ◌%◌, ◌^◌, ◌≤◌, ◌<◌, ◌≡◌, refl, List, [], ◌∷◌, ◌++◌, length,
  length-append, append_assoc, ok, Bool, Bool-cases, inl, inr, true, false, ltb, ◌==◌, arith,
  bit_and, bit_and_ones, take-append, drop-append, le→ltb,
}
use spar_somnong.Nanopb.Types.{u32, wt_varint, wt_64bit, wt_string, wt_32bit}
use spar_somnong.Nanopb.Istream.{pb_read, read_now}
use spar_somnong.Nanopb.Istream.Values.{
  pb_skip_varint, skip_varint_loop, pb_skip_string, pb_decode_tag, skip_bytes, pb_skip_field,
  pb_make_string_substream, pb_close_string_substream, unzigzag, pb_decode_svarint,
  pb_decode_fixed32, pb_decode_fixed64,
}
use spar_somnong.Nanopb.Istream.Reads.{
  input, Reads, top_bit-clear, top_bit-set, pb_decode_varint-Reads,
}
use spar_somnong.Nanopb.Istream.Reads32.{varint32_eof-Reads, pb_decode_varint32-Reads}
use spar_somnong.Nanopb.Istream.Words.{word32_lem, word64_lem}
use spar_somnong.Nanopb.Wire.{
  varint_bytes, varint64, little_endian, tag_bytes, delimited, length-varint_bytes,
}

-- `pb_read` takes the next bytes, whether it keeps them or skips them.
pub pb_read-Reads : (keep : Bool) (bs : List ℕ) → Reads (pb_read keep (length bs)) bs bs
unfolding pb_read read_now
pb_read-Reads true bs rest n h =
    let enough : ltb n (length bs) ≡ false = le→ltb _ _ h in
    rw (enough, take-append bs rest, drop-append bs rest)
pb_read-Reads false bs rest n h =
    let enough : ltb n (length bs) ≡ false = le→ltb _ _ h in
    rw (enough, take-append bs rest, drop-append bs rest)

-- On a memory buffer that begins with a tag, `pb_decode_tag` returns its wire type and field
-- number, no end of file, and the rest, for wire types below 8 and field numbers from 1 to 2 ^
-- 29 - 1.
pub pb_decode_tag_lem :
    (wiretype tag n : ℕ) (rest : List ℕ)
    → wiretype < 8
    → 0 < tag
    → tag < 2 ^ 29
    → length (tag_bytes wiretype tag) ≤ n
    → pb_decode_tag (input (tag_bytes wiretype tag ++ rest) n)
      ≡ (ok (wiretype, tag), false, input rest (n - length (tag_bytes wiretype tag)))
unfolding pb_decode_tag
pb_decode_tag_lem wiretype tag n rest hw pos ht hn =
    let v = tag * 8 + wiretype in
    let low : bit_and v 7 ≡ wiretype = omega (arith, bit_and_ones 3 v) in
    let high : u32 v / 8 ≡ tag = omega arith in
    let nonzero : (v == 0) ≡ false = ground arith in
    rw (varint32_eof-Reads v n rest (omega arith) hn, nonzero, low, high)

-- The bytes of a string or submessage are skipped whole.
pb_skip_string-Reads : (bs : List ℕ) → length bs < 2 ^ 32 → Reads pb_skip_string (delimited bs) tt
unfolding pb_skip_string
pb_skip_string-Reads bs h rest n hn =
    let total = length-append (varint64 (length bs)) bs in
    rw
      (
        append_assoc,
        pb_decode_varint32-Reads (length bs) h (bs ++ rest) n (omega (arith, total)),
        pb_read-Reads false bs rest (n - length (varint64 (length bs))) (omega (arith, total)),
      )
      (ground (arith, total))

read_one :
    (b n : ℕ) (rest : List ℕ)
    → 1 ≤ n
    → pb_read true 1 (input (b ∷ rest) n) ≡ (ok (b ∷ []), input rest (n - 1))
read_one b n rest h = pb_read-Reads true (b ∷ []) rest n h

skip_varint_loop-Reads :
    (k fuel w n : ℕ) (rest : List ℕ)
    → w < 128 ^ suc k
    → length (varint_bytes k w) ≤ fuel
    → length (varint_bytes k w) ≤ n
    → skip_varint_loop fuel (input (varint_bytes k w ++ rest) n)
      ≡ (ok tt, input rest (n - length (varint_bytes k w)))
unfolding skip_varint_loop varint_bytes
skip_varint_loop-Reads k zero w n rest hw hk hn = absurd (omega (arith, length-varint_bytes k w))
skip_varint_loop-Reads zero (suc fuel) w n rest hw hk hn =
    rw (read_one w n rest hn, top_bit-clear w (omega arith))
skip_varint_loop-Reads (suc k) (suc fuel) w n rest hw hk hn = elim (Bool-cases (ltb w 128)) [
  | inl last ↦ rw (
    last,
    read_one w n rest (omega (arith, length-varint_bytes (suc k) w)),
    top_bit-clear w (ground arith),
  )
  | inr more ↦
      let pos = rw more at hn in
      let fuel_left = rw more at hk in
      let one =
        read_one (w % 128 + 128) n (varint_bytes k (w / 128) ++ rest) (omega (arith, pos)) in
      let later =
        skip_varint_loop-Reads k fuel (w / 128) (n - 1) rest (omega arith)
          (omega (arith, fuel_left)) (omega (arith, pos)) in
      rw (more, one, top_bit-set (w % 128) (omega arith)) (ground (arith, later))
]

pb_skip_varint-Reads : (v : ℕ) → v < 2 ^ 64 → Reads pb_skip_varint (varint64 v) tt
unfolding pb_skip_varint
pb_skip_varint-Reads v h rest n hn =
    skip_varint_loop-Reads 9 (suc n) v n rest (omega arith) (omega arith) hn

-- The payloads of the four wire types.
pub data Payload : ℕ → List ℕ → Type 0 where
  varint : (v : ℕ) → v < 2 ^ 64 → Payload wt_varint (varint64 v)
  word64 : (bs : List ℕ) → length bs ≡ 8 → Payload wt_64bit bs
  string : (bs : List ℕ) → length bs < 2 ^ 32 → Payload wt_string (delimited bs)
  word32 : (bs : List ℕ) → length bs ≡ 4 → Payload wt_32bit bs

skip_bytes-Reads : (bs : List ℕ) {count : ℕ} → length bs ≡ count → Reads (skip_bytes count) bs tt
unfolding skip_bytes
skip_bytes-Reads bs e rest n hn = rw (← e, pb_read-Reads false bs rest n hn)

-- On a memory buffer `pb_skip_field` steps over a well-formed payload of its wire type, and
-- over nothing more.
pub pb_skip_field-Reads :
    {wiretype : ℕ} {bs : List ℕ} → Payload wiretype bs → Reads (pb_skip_field wiretype) bs tt
unfolding pb_skip_field
pb_skip_field-Reads (varint v h) = pb_skip_varint-Reads v h
pb_skip_field-Reads (word64 bs e) = skip_bytes-Reads bs e
pb_skip_field-Reads (string bs h) = pb_skip_string-Reads bs h
pb_skip_field-Reads (word32 bs e) = skip_bytes-Reads bs e

-- On a memory buffer with a whole length-delimited payload of less than 2 ^ 32 bytes,
-- `pb_make_string_substream` gives a stream limited to the payload, and takes the payload's
-- bytes from the parent's.
pub pb_make_string_substream_lem :
    (bs rest : List ℕ) (n : ℕ)
    → length bs < 2 ^ 32
    → length (delimited bs) ≤ n
    → pb_make_string_substream (input (delimited bs ++ rest) n)
      ≡ (ok (input (bs ++ rest) (length bs)), input (bs ++ rest) (n - length (delimited bs)))
unfolding pb_make_string_substream
pb_make_string_substream_lem bs rest n h hn =
    let total = length-append (varint64 (length bs)) bs in
    let enough : ltb (n - length (varint64 (length bs))) (length bs) ≡ false =
      le→ltb _ _ (omega (arith, total)) in
    rw
      (
        append_assoc,
        pb_decode_varint32-Reads (length bs) h (bs ++ rest) n (omega (arith, total)),
        enough,
      )
      (ground (arith, total))

-- On memory buffers `pb_close_string_substream` skips what was not read of the substream, and
-- moves the parent behind it.
pub pb_close_string_substream_lem :
    (unread rest src : List ℕ) (n : ℕ)
    → pb_close_string_substream (input (unread ++ rest) (length unread)) (input src n)
      ≡ (ok tt, input rest n)
unfolding pb_close_string_substream
pb_close_string_substream_lem [] rest src n = refl
pb_close_string_substream_lem (b ∷ bs) rest src n =
    let nonempty : (length (b ∷ bs) == 0) ≡ false = ground arith in
    rw (nonempty, pb_read-Reads false (b ∷ bs) rest (length (b ∷ bs)) (omega arith))

-- `pb_decode_fixed32` reads back a little-endian uint32.
pub pb_decode_fixed32-Reads : (v : ℕ) → v < 2 ^ 32 → Reads pb_decode_fixed32 (little_endian 4 v) v
unfolding pb_decode_fixed32
pb_decode_fixed32-Reads v h rest n hn =
    rw (pb_read-Reads true (little_endian 4 v) rest n hn) (ground (arith, word32_lem 0 v))

-- `pb_decode_fixed64` reads back a little-endian uint64.
pub pb_decode_fixed64-Reads : (v : ℕ) → v < 2 ^ 64 → Reads pb_decode_fixed64 (little_endian 8 v) v
unfolding pb_decode_fixed64
pb_decode_fixed64-Reads v h rest n hn =
    rw (pb_read-Reads true (little_endian 8 v) rest n hn) (rw (word64_lem v h))

-- `pb_decode_svarint` reads any varint as a zigzag number.
pub pb_decode_svarint-Reads :
    (v : ℕ) → v < 2 ^ 64 → Reads pb_decode_svarint (varint64 v) (unzigzag v)
unfolding pb_decode_svarint
pb_decode_svarint-Reads v h rest n hn = rw (pb_decode_varint-Reads v h rest n hn)
