-- ===== src/Nanopb/Decode/RequiredSet.antt =====
-- ios/Pods/nanopb/pb_decode.c: the test of `fields_seen` for missing fields.
use Prim.Native.Nat.{min}
use spar_somnong.Common.{
  ℕ, ◌+◌, ◌-◌, ◌/◌, ◌^◌, ◌≤◌, ◌<◌, ◌≡◌, refl, ◌↔◌, Bool, true, false, Bool-cases, inl, inr, ◌==◌,
  ltb, ==_iff, ltb→lt, ltb→le, if◌then◌else◌, List, All, bit_and, bit_and_ones, all_below,
  all_below→true, arith,
}
use spar_somnong.Common.Digits.{bit-ones, ones-bit}
use spar_somnong.Nanopb.Decode.Required.{all_bits, whole_words_seen, all_seen}
use spar_somnong.Nanopb.Decode.RequiredSeen.{words, is_marked, marks, contains, marks-Marked}

shifted_checked : all_below 33 (λ r. all_bits / 2 ^ (32 - r) == 2 ^ r - 1) ≡ true
unfolding all_below
shifted_checked = refl

-- `allbits >> (32 - r)` has `r` ones.
shifted : (r : ℕ) → r < 33 → all_bits / 2 ^ (32 - r) ≡ 2 ^ r - 1
shifted r lt =
    (==_iff (all_bits / 2 ^ (32 - r)) (2 ^ r - 1)).0
      (all_below→true 33 (λ r. all_bits / 2 ^ (32 - r) == 2 ^ r - 1) r shifted_checked lt)

module _ (count low high : ℕ) where
  abbrev Complete : Type 0
  Complete = (low ≡ 2 ^ min 32 count - 1) × (high ≡ 2 ^ (count - 32) - 1)

  module _ (low_small : low < 2 ^ min 32 count) (high_small : high < 2 ^ (count - 32)) where
    all_seen-first : count < 32 → (all_seen count (words low high) ≡ true) ↔ Complete
    unfolding all_seen whole_words_seen
    all_seen-first lt =
        let word : count / 2 ^ 5 ≡ 0 = omega arith in
        let rest : bit_and count 31 ≡ count = omega (arith, bit_and_ones 5 count) in
        let ones = shifted count (omega arith) in
        let minimum : min 32 count ≡ count = ground arith in
        let none_above : count - 32 ≡ 0 = omega arith in
        let small : low < 2 ^ count = rw minimum at low_small in
        let empty : high < 2 ^ 0 = rw none_above at high_small in
        rw (word, rest, ones, minimum, none_above) (ground arith)

    all_seen-second : 32 ≤ count → count < 64 → (all_seen count (words low high) ≡ true) ↔ Complete
    unfolding all_seen whole_words_seen
    all_seen-second le lt =
        let word : count / 2 ^ 5 ≡ 1 = omega arith in
        let rest : bit_and count 31 ≡ count - 32 = omega (arith, bit_and_ones 5 count) in
        let ones = shifted (count - 32) (omega arith) in
        let minimum : min 32 count ≡ 32 = ground arith in
        rw (word, rest, ones, minimum) (ground arith)

    all_seen-full : count ≡ 64 → (all_seen count (words low high) ≡ true) ↔ Complete
    unfolding all_seen whole_words_seen
    all_seen-full e = rw e (ground arith)

    all_seen-words : count ≤ 64 → (all_seen count (words low high) ≡ true) ↔ Complete
    all_seen-words le = elim (Bool-cases (ltb count 32)) [
      | inl e ↦ all_seen-first (ltb→lt count 32 e)
      | inr n ↦ elim (Bool-cases (ltb count 64)) [
        | inl e ↦ all_seen-second (ltb→le count 32 n) (ltb→lt count 64 e)
        | inr m ↦ all_seen-full (omega (arith, ltb→le count 64 m))
      ]
    ]

    digits_ones : Complete → (j : ℕ) → j < count → is_marked low high j ≡ 1
    digits_ones c j lt = elim (Bool-cases (ltb j 32)) [
      | inl e ↦ rw (e, c.0) (bit-ones (min 32 count) j (ground (arith, ltb→lt j 32 e)))
      | inr n ↦ rw (n, c.1) (bit-ones (count - 32) (j - 32) (omega (arith, ltb→le j 32 n)))
    ]

    ones_digits : ((j : ℕ) → j < count → is_marked low high j ≡ 1) → Complete
    ones_digits h = (
      ones-bit (min 32 count) low low_small
          (λ j lt. let first : ltb j 32 ≡ true = ground arith in rw first at (h j (ground arith))),
      ones-bit (count - 32) high high_small (λ j lt.
          let second : ltb (j + 32) 32 ≡ false = ground arith in
          let back : j + 32 - 32 ≡ j = omega arith in
          rw (second, back) at (h (j + 32) (omega arith))),
    )

contains-digit : (b : Bool) (d : ℕ) → d ≡ (if b then 1 else 0) → (d ≡ 1) ↔ (b ≡ true)
contains-digit true d h = (λ e. refl, λ e. h)
contains-digit false d h = (λ e. absurd (omega (arith, e, h)), λ e. absurd (cc e))

-- After marking fields with indices below a count of at most 64, in any order and any number of
-- times, the test of the bitmap accepts exactly if each index below the count was marked.
pub all_seen_iff :
    (count : ℕ) (is : List ℕ)
    → count ≤ 64
    → All (λ i. i < count) is
    → (all_seen count (marks is) ≡ true) ↔ ((j : ℕ) → j < count → contains j is ≡ true)
all_seen_iff count is le all =
    let m = marks-Marked count is le all in
    let test = all_seen-words count m.low m.high m.low_small m.high_small le in
    let digit : (j : ℕ) → (is_marked m.low m.high j ≡ 1) ↔ (contains j is ≡ true) =
      λ j. contains-digit (contains j is) (is_marked m.low m.high j) (m.digits j) in
    (
      λ e j lt.
          (digit j).0
            (digits_ones count m.low m.high m.low_small m.high_small (test.0 (rw m.are at e)) j lt),
      λ h. rw m.are (
          test.1 (
            ones_digits count m.low m.high m.low_small m.high_small
              (λ j lt. (digit j).1 (h j lt)))),
    )
