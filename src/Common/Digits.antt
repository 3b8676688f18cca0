-- ===== src/Common/Digits.antt =====
-- Single binary digits of a number: of a disjunction, of a power of two, and of all ones.
use Prim.Native.Nat.{ℕ, zero, suc, ◌-◌, ◌/◌, ◌%◌, ◌^◌, ◌<◌, max, bit_or}
use mathlib.Core.Path.{◌≡◌, refl}
use native.Mathlib.Nat.{pow-suc, one-le-pow}
use native.Mathlib.Omega.{arith}
use spar_somnong.Common.Tests.{◌==◌, if◌then◌else◌}
use spar_somnong.Common.Bits.{or_digit}

-- The digit of weight `2 ^ j`.
abbrev pub bit : ℕ → ℕ → ℕ
bit zero w = w % 2
bit (suc j) w = bit j (w / 2)

pub bit-zero : (j : ℕ) → bit j 0 ≡ 0
bit-zero zero = refl
bit-zero (suc j) = bit-zero j

bit-or : (j a b : ℕ) → bit j (bit_or a b) ≡ max (bit j a) (bit j b)
bit-or zero a b = ground (arith, or_digit a b)
bit-or (suc j) a b =
    let half : bit_or a b / 2 ≡ bit_or (a / 2) (b / 2) = ground (arith, or_digit a b) in
    rw half (bit-or j (a / 2) (b / 2))

bit-lt : (j w : ℕ) → bit j w < 2
bit-lt zero w = omega arith
bit-lt (suc j) w = bit-lt j (w / 2)

bit-power : (j k : ℕ) → bit j (2 ^ k) ≡ (if k == j then 1 else 0)
bit-power zero zero = refl
bit-power zero (suc k) = ground (arith, pow-suc 2 k)
bit-power (suc j) zero = rw (bit-zero j) (ground arith)
bit-power (suc j) (suc k) =
    let half : 2 ^ suc k / 2 ≡ 2 ^ k = omega (arith, pow-suc 2 k) in
    rw (half, bit-power j k) (ground arith)

-- Setting a digit.
pub bit-set : (j k w : ℕ) → bit j (bit_or w (2 ^ k)) ≡ (if k == j then 1 else bit j w)
bit-set j k w = ground (arith, bit-or j w (2 ^ k), bit-power j k, bit-lt j w)

pub bit_or-lt : (n a b : ℕ) → a < 2 ^ n → b < 2 ^ n → bit_or a b < 2 ^ n
bit_or-lt zero a b h k =
    let a0 : a ≡ 0 = omega arith in let b0 : b ≡ 0 = omega arith in rw (a0, b0) (omega arith)
bit_or-lt (suc n) a b h k = ground (
  arith,
  or_digit a b,
  pow-suc 2 n,
  bit_or-lt n (a / 2) (b / 2) (omega (arith, pow-suc 2 n)) (omega (arith, pow-suc 2 n)),
)

pub bit-ones : (n j : ℕ) → j < n → bit j (2 ^ n - 1) ≡ 1
bit-ones zero j lt = absurd (omega arith)
bit-ones (suc n) zero lt = omega (arith, pow-suc 2 n, one-le-pow n 2 (omega arith))
bit-ones (suc n) (suc j) lt =
    let half : (2 ^ suc n - 1) / 2 ≡ 2 ^ n - 1 =
      omega (arith, pow-suc 2 n, one-le-pow n 2 (omega arith)) in
    rw half (bit-ones n j (omega arith))

-- A number of `n` digits that are all ones.
pub ones-bit : (n w : ℕ) → w < 2 ^ n → ((j : ℕ) → j < n → bit j w ≡ 1) → w ≡ 2 ^ n - 1
ones-bit zero w h k = omega arith
ones-bit (suc n) w h k = omega (
  arith,
  pow-suc 2 n,
  k 0 (omega arith),
  ones-bit n (w / 2) (omega (arith, pow-suc 2 n)) (λ j lt. k (suc j) (omega arith)),
  one-le-pow n 2 (omega arith),
)
