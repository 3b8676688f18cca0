-- ===== src/Base64/Groups.antt =====
-- fbase64.c: the characters that its shifts and masks give for groups of three bytes, against the
-- definition of base64 text.
use spar_somnong.Common.{
  ℕ, ◌/◌, ◌%◌, ◌^◌, ◌<◌, ◌≡◌, refl, Bool, true, List, [], ◌∷◌, length, ◌==◌, ==_iff, arith, All,
  all_below, all_below→true, bit_and_ones, ◌∙◌, ap,
}
use spar_somnong.Base64.Format.{IsByte, letter, joined, text}
use spar_somnong.Base64.Table.{base64, base64_at, pad64}
use spar_somnong.Base64.Encode.{output0, output1, output2, output3}

-- The characters by the code's shifts and masks.
unfoldable pub groups : List ℕ → List ℕ
groups [] = []
groups (a ∷ []) = base64_at (output0 a) ∷ base64_at (output1 a 0) ∷ pad64 ∷ pad64 ∷ []
groups (a ∷ b ∷ []) =
    base64_at (output0 a) ∷ base64_at (output1 a b) ∷ base64_at (output2 b 0) ∷ pad64 ∷ []
groups (a ∷ b ∷ c ∷ src) =
    base64_at (output0 a)
    ∷ base64_at (output1 a b)
    ∷ base64_at (output2 b c)
    ∷ base64_at (output3 c)
    ∷ groups src

-- The table holds the alphabet.
is_letter : ℕ → Bool
is_letter v = base64_at v == letter v

all_letters : all_below 64 is_letter ≡ true
unfolding all_below is_letter base64_at base64 letter
all_letters = refl

base64_at-letter : (v w : ℕ) → v < 64 → v ≡ w → base64_at v ≡ letter w
unfolding is_letter
base64_at-letter v w h e =
    (==_iff _ _).0 (all_below→true 64 is_letter v all_letters h) ∙ ap letter e

module _ (a b c : ℕ) (ha : IsByte a) (hb : IsByte b) (hc : IsByte c) where
  first : base64_at (output0 a) ≡ letter (joined a b c / 2 ^ 18)
  first = base64_at-letter _ _ (omega arith) (omega arith)

  second : base64_at (output1 a b) ≡ letter (joined a b c / 2 ^ 12 % 64)
  second = base64_at-letter _ _ (omega (arith, bit_and_ones 2 a)) (omega (arith, bit_and_ones 2 a))

  third : base64_at (output2 b c) ≡ letter (joined a b c / 2 ^ 6 % 64)
  third = base64_at-letter _ _ (omega (arith, bit_and_ones 4 b)) (omega (arith, bit_and_ones 4 b))

  fourth : base64_at (output3 c) ≡ letter (joined a b c % 64)
  fourth = base64_at-letter _ _ (omega (arith, bit_and_ones 6 c)) (omega (arith, bit_and_ones 6 c))

-- For bytes the characters are the base64 text.
pub groups-text : (src : List ℕ) → All IsByte src → groups src ≡ text src
unfolding groups text
groups-text [] h = refl
groups-text (a ∷ []) h =
    rw (first a 0 0 h.0 (omega arith) (omega arith), second a 0 0 h.0 (omega arith) (omega arith))
      refl
groups-text (a ∷ b ∷ []) h =
    rw
      (
        first a b 0 h.0 h.1.0 (omega arith),
        second a b 0 h.0 h.1.0 (omega arith),
        third a b 0 h.0 h.1.0 (omega arith),
      )
      refl
groups-text (a ∷ b ∷ c ∷ src) h =
    rw
      (
        first a b c h.0 h.1.0 h.1.1.0,
        second a b c h.0 h.1.0 h.1.1.0,
        third a b c h.0 h.1.0 h.1.1.0,
        fourth a b c h.0 h.1.0 h.1.1.0,
        groups-text src h.1.1.1,
      )
      refl

pub length-groups : (src : List ℕ) → length (groups src) ≡ length (text src)
unfolding groups text
length-groups [] = refl
length-groups (a ∷ []) = refl
length-groups (a ∷ b ∷ []) = refl
length-groups (a ∷ b ∷ c ∷ src) = omega (arith, length-groups src)
