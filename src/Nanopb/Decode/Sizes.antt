-- ===== src/Nanopb/Decode/Sizes.antt =====
-- Integers of 1, 2, 4 and 8 bytes, as bit patterns, in the casts of ios/Pods/nanopb.
use spar_somnong.Common.{
  ℕ, ◌*◌, ◌%◌, ◌^◌, ◌<◌, ◌≡◌, inl, inr, true, Bool-cases, ◌==◌, ==_iff, arith,
}
use spar_somnong.Nanopb.Types.{u64, sign_extend}
use spar_somnong.Nanopb.Encode.Fields.{is_integer_size}
use spar_somnong.Nanopb.Decode.Numbers.{dec_varint_value}

data IntegerSize : ℕ → Type 0 where
  one_byte : IntegerSize 1
  two_bytes : IntegerSize 2
  four_bytes : IntegerSize 4
  eight_bytes : IntegerSize 8

is_integer_size→IntegerSize : (n : ℕ) → is_integer_size n ≡ true → IntegerSize n
is_integer_size→IntegerSize n h = elim (Bool-cases (n == 1)) [
  | inl e ↦ rw ((==_iff n 1).0 e) one_byte
  | inr n1 ↦ elim (Bool-cases (n == 2)) [
    | inl e ↦ rw ((==_iff n 2).0 e) two_bytes
    | inr n2 ↦ elim (Bool-cases (n == 4)) [
      | inl e ↦ rw ((==_iff n 4).0 e) four_bytes
      | inr n4 ↦ elim (Bool-cases (n == 8)) [
        | inl e ↦ rw ((==_iff n 8).0 e) eight_bytes
        | inr n8 ↦ absurd (ground arith)
      ]
    ]
  ]
]

-- The cast of a signed integer of `n` bytes to 64 bits.
abbrev pub signed_value : ℕ → ℕ → ℕ
signed_value n v = u64 (sign_extend (n * 8) v)

unsigned_fits_of : {n : ℕ} → IntegerSize n → (v : ℕ) → v < 256 ^ n → v % 2 ^ (n * 8) ≡ v
unsigned_fits_of one_byte v h = omega arith
unsigned_fits_of two_bytes v h = omega arith
unsigned_fits_of four_bytes v h = omega arith
unsigned_fits_of eight_bytes v h = omega arith

low_of : {n : ℕ} → IntegerSize n → (v : ℕ) → v < 256 ^ n → signed_value n v % 2 ^ (n * 8) ≡ v
unfolding sign_extend
low_of one_byte v h = ground arith
low_of two_bytes v h = ground arith
low_of four_bytes v h = ground arith
low_of eight_bytes v h = ground arith

bytes_of : {n : ℕ} → IntegerSize n → (v : ℕ) → v < 256 ^ n → signed_value n v % 256 ^ n ≡ v
unfolding sign_extend
bytes_of one_byte v h = ground arith
bytes_of two_bytes v h = ground arith
bytes_of four_bytes v h = ground arith
bytes_of eight_bytes v h = ground arith

value_of :
    {n : ℕ}
    → IntegerSize n
    → (v : ℕ) → v < 256 ^ n
    → dec_varint_value n (signed_value n v) ≡ signed_value n v
unfolding sign_extend dec_varint_value
value_of one_byte v h = ground arith
value_of two_bytes v h = ground arith
value_of four_bytes v h = ground arith
value_of eight_bytes v h = ground arith

module _ (n : ℕ) (size_ok : is_integer_size n ≡ true) (v : ℕ) (h : v < 256 ^ n) where
  pub unsigned_fits : v % 2 ^ (n * 8) ≡ v
  unsigned_fits = unsigned_fits_of (is_integer_size→IntegerSize n size_ok) v h

  pub signed_low : signed_value n v % 2 ^ (n * 8) ≡ v
  signed_low = low_of (is_integer_size→IntegerSize n size_ok) v h

  pub signed_low_load : signed_value n v % 256 ^ n ≡ v
  signed_low_load = bytes_of (is_integer_size→IntegerSize n size_ok) v h

  pub varint_value : dec_varint_value n (signed_value n v) ≡ signed_value n v
  varint_value = value_of (is_integer_size→IntegerSize n size_ok) v h
