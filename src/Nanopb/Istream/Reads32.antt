-- ===== src/Nanopb/Istream/Reads32.antt =====
-- What `pb_decode_varint32` reads from a memory buffer.
use spar_somnong.Common.{
  ℕ, zero, suc, ◌+◌, ◌-◌, ◌*◌, ◌/◌, ◌%◌, ◌^◌, ◌≤◌, ◌<◌, ◌≡◌, refl, List, ◌∷◌, ◌++◌, length, ok,
  Bool-cases, inl, inr, true, false, ltb, leb, ◌==◌, arith, bit_and, bit_or_low, all_below,
  all_below→true,
}
use spar_somnong.Nanopb.Types.{u8, u32}
use spar_somnong.Nanopb.Istream.Varints.{
  varint32_loop, varint32_rest, varint32_add, varint32_end, pb_decode_varint32_eof,
  pb_decode_varint32,
}
use spar_somnong.Nanopb.Istream.Reads.{
  input, Reads, readbyte_lem, low_seven, top_bit-clear, top_bit-set, split_shift, shift_seven,
  group_fits,
}
use spar_somnong.Nanopb.Wire.{varint_bytes, varint64, length-varint_bytes, varint64-uint32}

high_nibble_table : all_below 16 (λ b. bit_and b 0x70 == 0) ≡ true
unfolding all_below
high_nibble_table = refl

high_nibble-clear : (b : ℕ) → b < 16 → (bit_and b 0x70 == 0) ≡ true
high_nibble-clear b h = all_below→true 16 _ b high_nibble_table h

module _ (fuel bitpos result : ℕ) (small : result < 2 ^ bitpos) (in_word : bitpos ≤ 28) where
  added :
      (g byte : ℕ)
      → bit_and byte 0x7F ≡ g
      → result + g * 2 ^ bitpos < 2 ^ 32
      → varint32_add bitpos result byte ≡ result + g * 2 ^ bitpos
  unfolding varint32_add
  added g byte bits fits =
      let more : leb 32 bitpos ≡ false = ground arith in
      let whole : u32 (g * 2 ^ bitpos) ≡ g * 2 ^ bitpos = omega arith in
      rw (more, bits, whole, bit_or_low bitpos g result small)

  last_round :
      (w n : ℕ) (rest : List ℕ)
      → w < 128
      → result + w * 2 ^ bitpos < 2 ^ 32
      → (bitpos ≡ 28 → w < 16)
      → 1 ≤ n
      → varint32_loop (suc fuel) bitpos result (input (w ∷ rest) n)
        ≡ (ok (result + w * 2 ^ bitpos), input rest (n - 1))
  unfolding varint32_loop varint32_end
  last_round w n rest hw fits top hn =
      let more : leb 32 bitpos ≡ false = ground arith in
      let bits : bit_and w 0x7F ≡ w = omega (arith, low_seven w) in
      let next : u8 (bitpos + 7) ≡ bitpos + 7 = omega arith in
      rw (readbyte_lem w rest n hn, more, top_bit-clear w hw, added w w bits fits, next)
        (elim (Bool-cases (bitpos + 7 == 35)) [
          | inl e ↦ rw (varint32_end, e, high_nibble-clear w (top (ground arith)))
          | inr e ↦ rw (varint32_end, e)
        ])

  inner_round :
      (g n : ℕ) (rest : List ℕ)
      → g < 128
      → result + g * 2 ^ bitpos < 2 ^ 32
      → 1 ≤ n
      → varint32_loop (suc fuel) bitpos result (input ((g + 128) ∷ rest) n)
        ≡ varint32_loop fuel (bitpos + 7) (result + g * 2 ^ bitpos) (input rest (n - 1))
  unfolding varint32_loop
  inner_round g n rest hg fits hn =
      let more : leb 32 bitpos ≡ false = ground arith in
      let bits : bit_and (g + 128) 0x7F ≡ g = omega (arith, low_seven (g + 128)) in
      let next : u8 (bitpos + 7) ≡ bitpos + 7 = omega arith in
      rw (
        readbyte_lem (g + 128) rest n hn,
        more,
        top_bit-set g hg,
        added g (g + 128) bits fits,
        next,
      )

last_group_fits : (w bitpos : ℕ) → bitpos ≡ 28 → w * 2 ^ bitpos < 2 ^ 32 → w < 16
last_group_fits w bitpos e h = let h' : w * 2 ^ 28 < 2 ^ 32 = rw e at h in omega arith

varint32_loop-Reads :
    (k fuel bitpos result w n : ℕ) (rest : List ℕ)
    → length (varint_bytes k w) ≤ fuel
    → bitpos + 7 * k ≤ 28
    → result < 2 ^ bitpos
    → w < 128 ^ suc k
    → result + w * 2 ^ bitpos < 2 ^ 32
    → length (varint_bytes k w) ≤ n
    → varint32_loop fuel bitpos result (input (varint_bytes k w ++ rest) n)
      ≡ (ok (result + w * 2 ^ bitpos), input rest (n - length (varint_bytes k w)))
unfolding varint_bytes
varint32_loop-Reads k zero bitpos result w n rest hk hb small hw fits hn =
    absurd (omega (arith, length-varint_bytes k w))
varint32_loop-Reads zero (suc fuel) bitpos result w n rest hk hb small hw fits hn =
    last_round fuel bitpos result small (omega arith) w n rest (omega arith) fits
      (λ e. last_group_fits w bitpos e (omega arith)) (omega arith)
varint32_loop-Reads (suc k) (suc fuel) bitpos result w n rest hk hb small hw fits hn =
    elim (Bool-cases (ltb w 128)) [
      | inl last ↦ rw last (
          last_round fuel bitpos result small (omega arith) w n rest (ground arith) fits
            (λ e. last_group_fits w bitpos e (omega arith))
            (omega (arith, length-varint_bytes (suc k) w)))
      | inr more ↦
          let g = w % 128 in
          let pos = rw more at hn in
          let fuel_left = rw more at hk in
          let parts = split_shift w bitpos in
          let round =
            inner_round fuel bitpos result small (omega arith) g n
              (varint_bytes k (w / 128) ++ rest) (omega arith) (omega (arith, parts))
              (omega (arith, pos)) in
          let later =
            varint32_loop-Reads k fuel (bitpos + 7) (result + g * 2 ^ bitpos) (w / 128) (n - 1) rest
              (omega (arith, fuel_left)) (omega arith)
              (omega (arith, group_fits g (2 ^ bitpos) (omega arith), shift_seven bitpos))
              (omega arith) (omega (arith, parts)) (omega (arith, pos)) in
          rw more (rw round (ground (arith, later, parts)))
    ]

-- After the first byte.
varint32_rest-inner :
    (g w n : ℕ) (rest : List ℕ)
    → g < 128
    → g + w * 2 ^ 7 < 2 ^ 32
    → length (varint_bytes 3 w) ≤ n
    → varint32_rest (g + 128) (input (varint_bytes 3 w ++ rest) n)
      ≡ (ok (g + w * 2 ^ 7), input rest (n - length (varint_bytes 3 w)))
unfolding varint32_rest
varint32_rest-inner g w n rest hg fits hn =
    let bits : bit_and (g + 128) 0x7F ≡ g = omega (arith, low_seven (g + 128)) in
    rw (top_bit-set g hg, bits)
      (varint32_loop-Reads 3 (suc n) 7 g w n rest (omega arith) (omega arith) (omega arith)
        (omega arith) fits hn)

-- `pb_decode_varint32_eof` reads the varint of a uint32, and does not report the end of the input.
pub varint32_eof-Reads :
    (v n : ℕ) (rest : List ℕ)
    → v < 2 ^ 32
    → length (varint64 v) ≤ n
    → pb_decode_varint32_eof (input (varint64 v ++ rest) n)
      ≡ (ok v, false, input rest (n - length (varint64 v)))
unfolding pb_decode_varint32_eof varint_bytes
varint32_eof-Reads v n rest hv hn = elim (Bool-cases (ltb v 128)) [
  | inl small ↦
      rw (small, readbyte_lem v rest n (omega (arith, length-varint_bytes 9 v)))
        (unfold varint32_rest in rw (top_bit-clear v (ground arith)))
  | inr large ↦
      let hn' : length (varint_bytes 4 v) ≤ n = rw (varint64-uint32 v hv) at hn in
      let pos = rw large at hn' in
      let first =
        readbyte_lem (v % 128 + 128) (varint_bytes 3 (v / 128) ++ rest) n (omega (arith, pos)) in
      let more =
        varint32_rest-inner (v % 128) (v / 128) (n - 1) rest (omega arith) (omega arith)
          (omega (arith, pos)) in
      rw (varint64-uint32 v hv) (rw (large, first, more) (ground arith))
]

-- `pb_decode_varint32` reads the varint of any uint32 and gives the number back.
pub pb_decode_varint32-Reads : (v : ℕ) → v < 2 ^ 32 → Reads pb_decode_varint32 (varint64 v) v
unfolding pb_decode_varint32
pb_decode_varint32-Reads v hv rest n hn = rw (varint32_eof-Reads v n rest hv hn)
