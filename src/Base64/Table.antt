-- ===== src/Base64/Table.antt =====
-- fbase64.c: the alphabet, the padding character, and the C library's `strchr` and `isspace` of the
-- C locale on it. Characters are their codes.
use spar_somnong.Common.{
  ℕ, suc, ◌<◌, ◌≡◌, refl, Bool, true, false, ◌&&◌, ◌||◌, Option, none, some, List, [], ◌∷◌, get_or,
  leb, ◌==◌, if◌then◌else◌, all_below, all_below→true, arith, not,
}

-- The 64 characters, in the order of the source's string.
unfoldable pub base64 : List ℕ
base64 =
    65 ∷ 66 ∷ 67 ∷ 68 ∷ 69 ∷ 70 ∷ 71 ∷ 72 ∷ 73 ∷ 74 ∷ 75 ∷ 76 ∷ 77 ∷ 78 ∷ 79 ∷ 80 ∷ 81 ∷ 82 ∷ 83
    ∷ 84 ∷ 85 ∷ 86 ∷ 87 ∷ 88 ∷ 89 ∷ 90 ∷ 97 ∷ 98 ∷ 99 ∷ 100 ∷ 101 ∷ 102 ∷ 103 ∷ 104 ∷ 105 ∷ 106
    ∷ 107 ∷ 108 ∷ 109 ∷ 110 ∷ 111 ∷ 112 ∷ 113 ∷ 114 ∷ 115 ∷ 116 ∷ 117 ∷ 118 ∷ 119 ∷ 120 ∷ 121 ∷ 122
    ∷ 48 ∷ 49 ∷ 50 ∷ 51 ∷ 52 ∷ 53 ∷ 54 ∷ 55 ∷ 56 ∷ 57 ∷ 43 ∷ 47 ∷ []

abbrev pub pad64 : ℕ
pad64 = 61

-- `Base64[i]`
unfoldable pub base64_at : ℕ → ℕ
base64_at i = get_or base64 i 0

-- `strchr(s, ch) - s` on a character that is not NUL.
unfoldable pub strchr : List ℕ → ℕ → Option ℕ
strchr [] ch = none
strchr (c ∷ s) ch =
    let later : Option ℕ = elim (strchr s ch) [ none ↦ none | some i ↦ some (suc i) ] in
    if c == ch then some 0 else later

-- Blank, tab, newline, vertical tab, form feed and carriage return.
unfoldable pub isspace : ℕ → Bool
isspace ch = ch == 32 || leb 9 ch && leb ch 13

-- Every character of the alphabet is found at its place, is no blank and no padding.
good_digit : ℕ → Bool
good_digit i =
    elim (strchr base64 (base64_at i)) [ none ↦ false | some j ↦ j == i ]
    && (not (isspace (base64_at i)) && not (base64_at i == pad64))

good_digits : all_below 64 good_digit ≡ true
unfolding all_below good_digit strchr base64 base64_at isspace
good_digits = refl

module _ (i : ℕ) (h : i < 64) where
  good : good_digit i ≡ true
  good = all_below→true 64 good_digit i good_digits h

  pub strchr-base64_at : strchr base64 (base64_at i) ≡ some i
  unfolding good_digit
  strchr-base64_at = ground (arith, good)

  pub isspace-base64_at : isspace (base64_at i) ≡ false
  unfolding good_digit
  isspace-base64_at = ground (arith, good)

  pub base64_at-pad64 : (base64_at i == pad64) ≡ false
  unfolding good_digit
  base64_at-pad64 = ground (arith, good)
