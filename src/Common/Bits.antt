-- ===== src/Common/Bits.antt =====
-- Masks and disjoint fields of binary digits as arithmetic, at every width.
use Prim.Native.Nat.{
  ℕ, zero, suc, ◌+◌, ◌-◌, ◌*◌, ◌/◌, ◌%◌, ◌^◌, ◌≤◌, ◌<◌, min, max, digits, bit_and, bit_or,
  bit_and-bitwise, bit_or-bitwise,
}
use mathlib.Core.Path.{◌≡◌, refl, ap}
use mathlib.Core.Bool.{Bool, true, ◌&&◌}
use native.Mathlib.Nat.{pow-suc, one-le-pow}
use native.Mathlib.Omega.{arith}

-- The count of digits to go does not matter once it reaches the first number.
module _ (z : ℕ → ℕ) (f : ℕ → ℕ → ℕ) where
  digits-count : (n m a b : ℕ) → a ≤ n → a ≤ m → digits z f n a b ≡ digits z f m a b
  digits-count zero zero a b p q = refl
  digits-count zero (suc m) zero b p q = refl
  digits-count zero (suc m) (suc a) b p q = absurd (omega arith)
  digits-count (suc n) zero zero b p q = refl
  digits-count (suc n) zero (suc a) b p q = absurd (omega arith)
  digits-count (suc n) (suc m) zero b p q = refl
  digits-count (suc n) (suc m) (suc a) b p q =
      omega (arith, digits-count n m (suc a / 2) (b / 2) (omega arith) (omega arith))

-- One digit at a time.
pub or_digit : (a b : ℕ) → bit_or a b ≡ bit_or (a / 2) (b / 2) * 2 + max (a % 2) (b % 2)
or_digit zero b = omega (arith, bit_or-bitwise 0 b, bit_or-bitwise 0 (b / 2))
or_digit (suc a) b = omega (
  arith,
  bit_or-bitwise (suc a) b,
  bit_or-bitwise (suc a / 2) (b / 2),
  digits-count (λ y. y) max a (suc a / 2) (suc a / 2) (b / 2) (omega arith) (omega arith),
)

and_digit : (a b : ℕ) → bit_and a b ≡ bit_and (a / 2) (b / 2) * 2 + min (a % 2) (b % 2)
and_digit zero b = omega (arith, bit_and-bitwise 0 b, bit_and-bitwise 0 (b / 2))
and_digit (suc a) b = omega (
  arith,
  bit_and-bitwise (suc a) b,
  bit_and-bitwise (suc a / 2) (b / 2),
  digits-count (λ y. 0) min a (suc a / 2) (suc a / 2) (b / 2) (omega arith) (omega arith),
)

zero-or : (b : ℕ) → bit_or 0 b ≡ b
zero-or b = bit_or-bitwise 0 b

and-zero_count : (n a : ℕ) → a ≤ n → bit_and a 0 ≡ 0
and-zero_count n zero h = refl
and-zero_count zero (suc a) h = absurd (omega arith)
and-zero_count (suc n) (suc a) h =
    omega (arith, and_digit (suc a) 0, and-zero_count n (suc a / 2) (omega arith))

or_comm_count : (n a b : ℕ) → a ≤ n → b ≤ n → bit_or a b ≡ bit_or b a
or_comm_count zero zero zero p q = refl
or_comm_count zero zero (suc b) p q = absurd (omega arith)
or_comm_count zero (suc a) b p q = absurd (omega arith)
or_comm_count (suc n) a b p q =
    omega (
      arith,
      or_digit a b,
      or_digit b a,
      or_comm_count n (a / 2) (b / 2) (omega arith) (omega arith),
    )

pub bit_or_comm : (a b : ℕ) → bit_or a b ≡ bit_or b a
bit_or_comm a b = or_comm_count (a + b) a b (omega arith) (omega arith)

twice_shift : (q k : ℕ) → q * 2 ^ suc k ≡ 2 * (q * 2 ^ k)
twice_shift q k = omega (arith, ap (λ (t : ℕ). q * t) (pow-suc 2 k))

-- `r | (q << k)` is a sum where `r` fits `k` bits.
pub bit_or_low : (k q r : ℕ) → r < 2 ^ k → bit_or r (q * 2 ^ k) ≡ r + q * 2 ^ k
bit_or_low zero q r h = ground (arith, zero-or (q * 1))
bit_or_low (suc k) q r h = ground (
  arith,
  or_digit r (q * 2 ^ suc k),
  twice_shift q k,
  pow-suc 2 k,
  bit_or_low k q (r / 2) (omega (arith, pow-suc 2 k)),
)

-- `(q << k) | r`.
pub bit_or_high : (k q r : ℕ) → r < 2 ^ k → bit_or (q * 2 ^ k) r ≡ q * 2 ^ k + r
bit_or_high k q r h = omega (arith, bit_or_comm (q * 2 ^ k) r, bit_or_low k q r h)

and_ones_split : (k q r : ℕ) → r < 2 ^ k → bit_and (q * 2 ^ k + r) (2 ^ k - 1) ≡ r
and_ones_split zero q r h = omega (arith, and-zero_count (q * 1 + r) (q * 1 + r) (omega arith))
and_ones_split (suc k) q r h = ground (
  arith,
  and_digit (q * 2 ^ suc k + r) (2 ^ suc k - 1),
  twice_shift q k,
  pow-suc 2 k,
  and_ones_split k q (r / 2),
)

-- A mask of `k` ones is the remainder by `2 ^ k`.
pub bit_and_ones : (k a : ℕ) → bit_and a (2 ^ k - 1) ≡ a % 2 ^ k
bit_and_ones k a = ground (arith, one-le-pow k 2, and_ones_split k (a / 2 ^ k) (a % 2 ^ k))

one_bit_split : (k q r : ℕ) → r < 2 ^ k → bit_and (q * 2 ^ k + r) (2 ^ k) ≡ q % 2 * 2 ^ k
one_bit_split zero q r h = omega (arith, bit_and_ones 1 (q * 1 + r))
one_bit_split (suc k) q r h = ground (
  arith,
  and_digit (q * 2 ^ suc k + r) (2 ^ suc k),
  twice_shift q k,
  twice_shift (q % 2) k,
  pow-suc 2 k,
  one_bit_split k q (r / 2),
)

-- The digit of weight `2 ^ k`.
pub bit_and_one_bit : (k a : ℕ) → bit_and a (2 ^ k) ≡ a / 2 ^ k % 2 * 2 ^ k
bit_and_one_bit k a = ground (arith, one-le-pow k 2, one_bit_split k (a / 2 ^ k) (a % 2 ^ k))

-- Over a small range a law is checked at every value.
unfoldable pub all_below : ℕ → (ℕ → Bool) → Bool
all_below zero p = true
all_below (suc n) p = p n && all_below n p

pub all_below→true : (n : ℕ) (p : ℕ → Bool) (x : ℕ) → all_below n p ≡ true → x < n → p x ≡ true
unfolding all_below
all_below→true zero p x h lt = absurd (omega arith)
all_below→true (suc n) p x h lt = ground (arith, all_below→true n p x)
