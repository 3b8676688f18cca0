-- ===== src/Base64/Format.antt =====
-- Base64 text as RFC 4648 defines it: three bytes make a number of 24 bits, and its four digits to
-- the base 64 are written in the alphabet, most significant first. It names nothing of fbase64.c.
use spar_somnong.Common.{
  ℕ, ◌+◌, ◌-◌, ◌*◌, ◌/◌, ◌%◌, ◌^◌, ◌<◌, ◌≡◌, List, [], ◌∷◌, length, ltb, ◌==◌, if◌then◌else◌, arith,
}

-- A byte of the source.
abbrev pub IsByte : ℕ → Type 0
IsByte x = x < 256

-- A to Z, a to z, 0 to 9, + and /.
unfoldable pub letter : ℕ → ℕ
letter v =
    if ltb v 26
    then b'A' + v
    else (if ltb v 52
        then b'a' + (v - 26)
        else (if ltb v 62 then b'0' + (v - 52) else (if v == 62 then b'+' else b'/')))

abbrev pub padding : ℕ
padding = b'='

-- Three bytes as one number, the first byte on top.
abbrev pub joined : ℕ → ℕ → ℕ → ℕ
joined a b c = a * 2 ^ 16 + b * 2 ^ 8 + c

-- The four digits to the base 64.
abbrev pub digit1 : ℕ → ℕ
digit1 n = letter (n / 2 ^ 18)

abbrev pub digit2 : ℕ → ℕ
digit2 n = letter (n / 2 ^ 12 % 64)

abbrev pub digit3 : ℕ → ℕ
digit3 n = letter (n / 2 ^ 6 % 64)

abbrev pub digit4 : ℕ → ℕ
digit4 n = letter (n % 64)

-- Where bytes are left over, zeros fill the number up, and the padding stands for the digits that
-- hold nothing of them.
unfoldable pub text : List ℕ → List ℕ
text [] = []
text (a ∷ []) = digit1 (joined a 0 0) ∷ digit2 (joined a 0 0) ∷ padding ∷ padding ∷ []
text (a ∷ b ∷ []) =
    digit1 (joined a b 0) ∷ digit2 (joined a b 0) ∷ digit3 (joined a b 0) ∷ padding ∷ []
text (a ∷ b ∷ c ∷ src) =
    digit1 (joined a b c)
    ∷ digit2 (joined a b c)
    ∷ digit3 (joined a b c)
    ∷ digit4 (joined a b c)
    ∷ text src

pub length-text : (src : List ℕ) → length (text src) ≡ 4 * ((length src + 2) / 3)
unfolding text
length-text [] = omega arith
length-text (a ∷ []) = omega arith
length-text (a ∷ b ∷ []) = omega arith
length-text (a ∷ b ∷ c ∷ src) = omega (arith, length-text src)
