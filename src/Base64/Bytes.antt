-- ===== src/Base64/Bytes.antt =====
-- The bits of a group of three bytes: spread over four characters, they make the bytes again.
use spar_somnong.Common.{
  ℕ, ◌*◌, ◌/◌, ◌%◌, ◌^◌, ◌<◌, ◌≡◌, arith, bit_and, bit_or, bit_and_ones, bit_or_high,
}
use spar_somnong.Nanopb.Types.{u8}
use spar_somnong.Base64.Encode.{output0, output1, output2, output3}

pub output0-lt : (a : ℕ) → a < 256 → output0 a < 64
output0-lt a h = omega arith

pub output1-lt : (a b : ℕ) → b < 256 → output1 a b < 64
output1-lt a b h = omega (arith, bit_and_ones 2 a)

pub output2-lt : (b c : ℕ) → c < 256 → output2 b c < 64
output2-lt b c h = omega (arith, bit_and_ones 4 b)

pub output3-lt : (c : ℕ) → output3 c < 64
output3-lt c = omega (arith, bit_and_ones 6 c)

-- The bits of each byte meet again.
pub first_byte :
    (a b : ℕ) → a < 256 → b < 256 → u8 (bit_or (u8 (output0 a * 4)) (output1 a b / 16)) ≡ a
first_byte a b ha hb =
    let e : u8 (output0 a * 4) ≡ a / 4 * 2 ^ 2 = omega arith in
    let f : output1 a b / 16 ≡ a % 4 = omega (arith, bit_and_ones 2 a) in
    rw (e, f, bit_or_high 2 (a / 4) (a % 4) (omega arith)) (omega arith)

pub second_byte :
    (a b c : ℕ)
    → b < 256
    → c < 256
    → u8 (bit_or (u8 (bit_and (output1 a b) 0x0f * 16)) (output2 b c / 4)) ≡ b
second_byte a b c hb hc =
    let e : u8 (bit_and (output1 a b) 0x0f * 16) ≡ b / 16 * 2 ^ 4 =
      omega (arith, bit_and_ones 4 (output1 a b), bit_and_ones 2 a) in
    let f : output2 b c / 4 ≡ b % 16 = omega (arith, bit_and_ones 4 b) in
    rw (e, f, bit_or_high 4 (b / 16) (b % 16) (omega arith)) (omega arith)

pub third_byte :
    (b c : ℕ) → c < 256 → u8 (bit_or (u8 (bit_and (output2 b c) 0x03 * 64)) (output3 c)) ≡ c
third_byte b c hc =
    let e : u8 (bit_and (output2 b c) 0x03 * 64) ≡ c / 64 * 2 ^ 6 =
      omega (arith, bit_and_ones 2 (output2 b c), bit_and_ones 4 b) in
    let f : output3 c ≡ c % 64 = bit_and_ones 6 c in
    rw (e, f, bit_or_high 6 (c / 64) (c % 64) (omega arith)) (omega arith)
