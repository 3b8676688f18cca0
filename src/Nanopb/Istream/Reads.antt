-- ===== src/Nanopb/Istream/Reads.antt =====
-- What the decoders of varints read from a memory buffer.
use spar_somnong.Common.{
  ℕ, zero, suc, ◌+◌, ◌-◌, ◌*◌, ◌/◌, ◌%◌, ◌^◌, ◌≤◌, ◌<◌, ◌≡◌, ap, List, ◌∷◌, ◌++◌, length, none, ok,
  Bool-cases, inl, inr, false, ltb, leb, arith, bit_and, bit_and_ones, bit_and_one_bit, bit_or_low,
}
use native.Mathlib.Numerals.{towards_suc}
use spar_somnong.Nanopb.Types.{u8, u64}
use spar_somnong.Nanopb.Istream.{Istream, Decoder, buf_read, pb_readbyte}
use spar_somnong.Nanopb.Istream.Varints.{varint_loop, pb_decode_varint}
use spar_somnong.Nanopb.Wire.{varint_bytes, varint64, length-varint_bytes}

-- A memory buffer from the read pointer on, with `n` bytes that may be read.
abbrev pub input : List ℕ → ℕ → Istream
input src n = record { callback = buf_read; state = src; bytes_left = n; errmsg = none }

-- In front of any further bytes, `m` reads exactly `bs`, and gives `a`.
abbrev pub Reads {ℓ} : {A : Type ℓ} → Decoder A → List ℕ → A → Type ℓ
Reads m bs a =
    (rest : List ℕ) (n : ℕ)
    → length bs ≤ n
    → m (input (bs ++ rest) n) ≡ (ok a, input rest (n - length bs))

pub readbyte_lem :
    (b : ℕ) (rest : List ℕ) (n : ℕ)
    → 1 ≤ n
    → pb_readbyte (input (b ∷ rest) n) ≡ (ok b, input rest (n - 1))
unfolding pb_readbyte
readbyte_lem b rest n h = ground arith

pub low_seven : (b : ℕ) → bit_and b 0x7F ≡ b % 128
low_seven b = bit_and_ones 7 b

-- The top bit of a byte.
pub top_bit-clear : (b : ℕ) → b < 128 → bit_and b 0x80 ≡ 0
top_bit-clear b h = omega (arith, bit_and_one_bit 7 b)

pub top_bit-set : (b : ℕ) → b < 128 → bit_and (b + 128) 0x80 ≡ 128
top_bit-set b h = omega (arith, bit_and_one_bit 7 (b + 128))

pub shift_seven : (s : ℕ) → 2 ^ (s + 7) ≡ 128 * 2 ^ s
shift_seven s = simp towards_suc (omega arith)

-- The lowest group of `w` and the others, both shifted by `s`.
pub split_shift : (w s : ℕ) → w * 2 ^ s ≡ w % 128 * 2 ^ s + w / 128 * 2 ^ (s + 7)
split_shift w s =
    let parts : w ≡ 128 * (w / 128) + w % 128 = omega arith in
    let scaled : w * 2 ^ s ≡ (128 * (w / 128) + w % 128) * 2 ^ s =
      ap (λ (g : ℕ). g * 2 ^ s) parts in
    rw (shift_seven s) (omega (arith, scaled))

module _ (fuel bitpos result : ℕ) (small : result < 2 ^ bitpos) (in_word : bitpos < 64) where
  last_round :
      (w n : ℕ) (rest : List ℕ)
      → w < 128
      → result + w * 2 ^ bitpos < 2 ^ 64
      → 1 ≤ n
      → varint_loop (suc fuel) bitpos result (input (w ∷ rest) n)
        ≡ (ok (result + w * 2 ^ bitpos), input rest (n - 1))
  unfolding varint_loop
  last_round w n rest hw fits hn =
      let more : leb 64 bitpos ≡ false = ground arith in
      let bits : bit_and w 0x7F ≡ w = omega (arith, low_seven w) in
      let whole : u64 (w * 2 ^ bitpos) ≡ w * 2 ^ bitpos = omega arith in
      rw (
        more,
        readbyte_lem w rest n hn,
        top_bit-clear w hw,
        bits,
        whole,
        bit_or_low bitpos w result small,
      )

  inner_round :
      (g n : ℕ) (rest : List ℕ)
      → g < 128
      → result + g * 2 ^ bitpos < 2 ^ 64
      → 1 ≤ n
      → varint_loop (suc fuel) bitpos result (input ((g + 128) ∷ rest) n)
        ≡ varint_loop fuel (bitpos + 7) (result + g * 2 ^ bitpos) (input rest (n - 1))
  unfolding varint_loop
  inner_round g n rest hg fits hn =
      let more : leb 64 bitpos ≡ false = ground arith in
      let bits : bit_and (g + 128) 0x7F ≡ g = omega (arith, low_seven (g + 128)) in
      let whole : u64 (g * 2 ^ bitpos) ≡ g * 2 ^ bitpos = omega arith in
      let next : u8 (bitpos + 7) ≡ bitpos + 7 = omega arith in
      rw (
        more,
        readbyte_lem (g + 128) rest n hn,
        top_bit-set g hg,
        bits,
        whole,
        bit_or_low bitpos g result small,
        next,
      )

pub group_fits : (g p : ℕ) → g < 128 → g * p + p ≤ 128 * p
group_fits g p h = grind arith

-- `w` is what is still to be read; it counts from bit `bitpos` on.
varint_loop-Reads :
    (k fuel bitpos result w n : ℕ) (rest : List ℕ)
    → k < fuel
    → bitpos + 7 * k < 64
    → result < 2 ^ bitpos
    → w < 128 ^ suc k
    → result + w * 2 ^ bitpos < 2 ^ 64
    → length (varint_bytes k w) ≤ n
    → varint_loop fuel bitpos result (input (varint_bytes k w ++ rest) n)
      ≡ (ok (result + w * 2 ^ bitpos), input rest (n - length (varint_bytes k w)))
unfolding varint_bytes
varint_loop-Reads k zero bitpos result w n rest hk hb small hw fits hn = absurd (omega arith)
varint_loop-Reads zero (suc fuel) bitpos result w n rest hk hb small hw fits hn =
    last_round fuel bitpos result small (omega arith) w n rest (omega arith) fits (omega arith)
varint_loop-Reads (suc k) (suc fuel) bitpos result w n rest hk hb small hw fits hn =
    elim (Bool-cases (ltb w 128)) [
      | inl last ↦ rw last (
          last_round fuel bitpos result small (omega arith) w n rest (ground arith) fits
            (omega (arith, length-varint_bytes (suc k) w)))
      | inr more ↦
          let g = w % 128 in
          let pos = rw more at hn in
          let parts = split_shift w bitpos in
          let round =
            inner_round fuel bitpos result small (omega arith) g n
              (varint_bytes k (w / 128) ++ rest) (omega arith) (omega (arith, parts))
              (omega (arith, pos)) in
          let later =
            varint_loop-Reads k fuel (bitpos + 7) (result + g * 2 ^ bitpos) (w / 128) (n - 1) rest
              (omega arith) (omega arith)
              (omega (arith, group_fits g (2 ^ bitpos) (omega arith), shift_seven bitpos))
              (omega arith) (omega (arith, parts)) (omega (arith, pos)) in
          rw more (rw round (ground (arith, later, parts)))
    ]

-- `pb_decode_varint` reads the varint of any uint64 and gives the number back.
pub pb_decode_varint-Reads : (v : ℕ) → v < 2 ^ 64 → Reads pb_decode_varint (varint64 v) v
unfolding pb_decode_varint
pb_decode_varint-Reads v h rest n hn =
    let e : 0 + v * 2 ^ 0 ≡ v = omega arith in
    rw (
      varint_loop-Reads 9 11 0 0 v n rest (omega arith) (omega arith) (omega arith) (omega arith)
          (omega arith) hn,
      e,
    )
