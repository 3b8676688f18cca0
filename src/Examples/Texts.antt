-- ===== src/Examples/Texts.antt =====
-- The text of two bytes, by fbase64.c.
use spar_somnong.Common.{ℕ, ◌≡◌, refl, List, [], ◌∷◌, ◌++◌, length, arith, some}
use spar_somnong.Nanopb.Types.{u32}
use spar_somnong.Base64.Encode.{f_b64_ntop}
use spar_somnong.Base64.Decode.{f_b64_pton}
use spar_somnong.Base64.EncodeLaws.{GivesUp, f_b64_ntop-text, f_b64_ntop-full}
use spar_somnong.Base64.Format.{letter, text, length-text}
use spar_somnong.Base64.RoundTrip.{Returns, f_b64_pton-text}

abbrev two_bytes : List ℕ
two_bytes = 104 ∷ 105 ∷ []

f_b64_ntop-text_example :
    f_b64_ntop two_bytes 5 ≡ (u32 (length (text two_bytes)), text two_bytes ++ (0 ∷ []))
f_b64_ntop-text_example =
    f_b64_ntop-text two_bytes 5 (omega arith, (omega arith, tt)) (omega arith)
      (omega (arith, length-text two_bytes))

f_b64_ntop-full_example : GivesUp 4 (f_b64_ntop two_bytes 4)
f_b64_ntop-full_example =
    f_b64_ntop-full 4 (omega arith) two_bytes (omega (arith, length-text two_bytes))

f_b64_pton-text_example :
    Returns two_bytes 2 (f_b64_pton (text two_bytes) (some (0 ∷ 0 ∷ 0 ∷ [])) 3)
f_b64_pton-text_example =
    f_b64_pton-text two_bytes (0 ∷ 0 ∷ 0 ∷ []) 3 (omega arith, (omega arith, tt)) (omega arith) refl
      (omega arith)

-- The text of "hi" is "aGk=".
text_hi : text two_bytes ≡ b'a' ∷ b'G' ∷ b'k' ∷ b'=' ∷ []
unfolding text letter
text_hi = refl
