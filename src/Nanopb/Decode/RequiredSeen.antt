-- ===== src/Nanopb/Decode/RequiredSeen.antt =====
-- ios/Pods/nanopb/pb_decode.c: the two words of `fields_seen` stand for the set of the required
-- fields that were decoded.
use spar_somnong.Common.{
  ℕ, suc, ◌-◌, ◌/◌, ◌^◌, ◌≤◌, ◌<◌, ◌≡◌, refl, inl, inr, Bool, true, false, Bool-cases, ◌==◌, ltb,
  ltb→lt, ltb→le, if◌then◌else◌, List, [], ◌∷◌, All, bit_and, bit_or, bit_and_ones, arith, ne→==,
  ◌∙◌,
}
use native.Mathlib.Nat.{pow-le-pow_right, pow-suc, one-le-pow}
use Prim.Native.Nat.{min}
use spar_somnong.Common.Digits.{bit, bit-zero, bit-set, bit_or-lt}
use spar_somnong.Nanopb.Types.{u32}
use spar_somnong.Nanopb.Decode.Required.{none_seen, mark_seen}

-- The words with two names.
abbrev pub words : ℕ → ℕ → List ℕ
words low high = low ∷ high ∷ []

-- The digit of a field.
abbrev pub is_marked : ℕ → ℕ → ℕ → ℕ
is_marked low high j = if ltb j 32 then bit j low else bit (j - 32) high

power_lt : (i n : ℕ) → i < n → 2 ^ i < 2 ^ n
power_lt i n lt =
    let above : 2 ^ suc i ≤ 2 ^ n = pow-le-pow_right (omega arith) (omega arith) in
    let here : 0 < 2 ^ i = one-le-pow i 2 (omega arith) in omega (arith, pow-suc 2 i)

mark_seen-low :
    (i low high : ℕ) → i < 32 → mark_seen i (words low high) ≡ words (bit_or low (2 ^ i)) high
unfolding mark_seen
mark_seen-low i low high lt =
    let word : i / 2 ^ 5 ≡ 0 = omega arith in
    let digit : bit_and i 31 ≡ i = omega (arith, bit_and_ones 5 i) in
    let small : 2 ^ i < 2 ^ 32 = power_lt i 32 lt in
    let whole : u32 (2 ^ i) ≡ 2 ^ i = omega arith in rw (word, digit, whole) refl

mark_seen-high :
    (i low high : ℕ)
    → 32 ≤ i
    → i < 64
    → mark_seen i (words low high) ≡ words low (bit_or high (2 ^ (i - 32)))
unfolding mark_seen
mark_seen-high i low high le lt =
    let word : i / 2 ^ 5 ≡ 1 = omega arith in
    let digit : bit_and i 31 ≡ i - 32 = omega (arith, bit_and_ones 5 i) in
    let small : 2 ^ (i - 32) < 2 ^ 32 = power_lt (i - 32) 32 (omega arith) in
    let whole : u32 (2 ^ (i - 32)) ≡ 2 ^ (i - 32) = omega arith in rw (word, digit, whole) refl

-- The fields marked one after the other, the last one first.
abbrev pub marks : List ℕ → List ℕ
marks [] = none_seen
marks (i ∷ is) = mark_seen i (marks is)

abbrev pub contains : ℕ → List ℕ → Bool
contains j [] = false
contains j (i ∷ is) = if i == j then true else contains j is

-- The words hold the digits of exactly the fields of `is`, all of them below `count`.
pub record Marked (count : ℕ) (is : List ℕ) (seen : List ℕ) : Type 0 where
  pub low : ℕ
  pub high : ℕ
  pub are : seen ≡ words low high
  pub low_small : low < 2 ^ min 32 count
  pub high_small : high < 2 ^ (count - 32)
  pub digits : (j : ℕ) → is_marked low high j ≡ (if contains j is then 1 else 0)

is_marked-low :
    (i j low high : ℕ)
    → i < 32
    → is_marked (bit_or low (2 ^ i)) high j ≡ (if i == j then 1 else is_marked low high j)
is_marked-low i j low high lt = elim (Bool-cases (ltb j 32)) [
  | inl e ↦ rw (e, bit-set j i low) refl
  | inr n ↦
      let other : (i == j) ≡ false = ne→== i j (λ p. omega (arith, ltb→le j 32 n)) in
      rw (n, other) refl
]

is_marked-high :
    (i j low high : ℕ)
    → 32 ≤ i
    → is_marked low (bit_or high (2 ^ (i - 32))) j ≡ (if i == j then 1 else is_marked low high j)
is_marked-high i j low high le = elim (Bool-cases (ltb j 32)) [
  | inl e ↦
      let other : (i == j) ≡ false = ne→== i j (λ p. omega (arith, ltb→lt j 32 e)) in
      rw (e, other) refl
  | inr n ↦
      let same : (i - 32 == j - 32) ≡ (i == j) = ground (arith, ltb→le j 32 n) in
      rw (n, bit-set (j - 32) (i - 32) high, same) refl
]

added :
    (i j : ℕ) (is : List ℕ) (old new : ℕ)
    → old ≡ (if contains j is then 1 else 0)
    → new ≡ (if i == j then 1 else old)
    → new ≡ (if contains j (i ∷ is) then 1 else 0)
added i j is old new h k = elim (Bool-cases (i == j)) [
  | inl e ↦ rw e (k ∙ rw e refl)
  | inr n ↦ rw n (k ∙ rw n h)
]

pub marks-Marked :
    (count : ℕ) (is : List ℕ) → count ≤ 64 → All (λ i. i < count) is → Marked count is (marks is)
marks-Marked count [] h all = record {
  low = 0;
  high = 0;
  are = refl;
  low_small = one-le-pow (min 32 count) 2 (omega arith);
  high_small = one-le-pow (count - 32) 2 (omega arith);
  digits = λ j. elim (Bool-cases (ltb j 32)) [
    | inl e ↦ rw (e, bit-zero j) refl
    | inr n ↦ rw (n, bit-zero (j - 32)) refl
  ];
}
marks-Marked count (i ∷ is) h all =
    let rest = marks-Marked count is h all.1 in
    elim (Bool-cases (ltb i 32)) [
      | inl e ↦
          let lt = ltb→lt i 32 e in
          record {
            low = bit_or rest.low (2 ^ i);
            high = rest.high;
            are = rw rest.are (mark_seen-low i rest.low rest.high lt);
            low_small =
                bit_or-lt (min 32 count) rest.low (2 ^ i) rest.low_small
                  (power_lt i (min 32 count) (ground (arith, all.0, lt)));
            high_small = rest.high_small;
            digits =
                λ j. added i j is _ _ (rest.digits j) (is_marked-low i j rest.low rest.high lt);
          }
      | inr n ↦
          let le = ltb→le i 32 n in
          record {
            low = rest.low;
            high = bit_or rest.high (2 ^ (i - 32));
            are = rw rest.are (mark_seen-high i rest.low rest.high le (omega (arith, all.0)));
            low_small = rest.low_small;
            high_small =
                bit_or-lt (count - 32) rest.high (2 ^ (i - 32)) rest.high_small
                  (power_lt (i - 32) (count - 32) (omega (arith, all.0, le)));
            digits =
                λ j. added i j is _ _ (rest.digits j) (is_marked-high i j rest.low rest.high le);
          }
    ]
