-- ===== src/Nanopb/Istream/Words.antt =====
-- ios/Pods/nanopb/pb_decode.c: the bytes of a little-endian word joined by shifts and `|`.
use spar_somnong.Common.{
  ℕ, suc, ◌+◌, ◌*◌, ◌/◌, ◌%◌, ◌^◌, ◌<◌, ◌≡◌, refl, ◌∙◌, List, ◌∷◌, arith, bit_or_low, get_or,
}
use spar_somnong.Nanopb.Istream.Values.{word32 as word32_of, word64 as word64_of}
use spar_somnong.Nanopb.Wire.{little_endian}

-- Four bytes joined by shifts and `|` are a sum.
word32_sum :
    (a b c d : ℕ) (rest : List ℕ)
    → a < 256
    → b < 256
    → c < 256
    → word32_of (a ∷ b ∷ c ∷ d ∷ rest) ≡ a + b * 2 ^ 8 + c * 2 ^ 16 + d * 2 ^ 24
unfolding word32_of
word32_sum a b c d rest ha hb hc = rw (
  bit_or_low 8 b a ha,
  bit_or_low 16 c (a + b * 2 ^ 8) (omega arith),
  bit_or_low 24 d (a + b * 2 ^ 8 + c * 2 ^ 16) (omega arith),
)

-- The low word of a little-endian number in `n + 4` bytes.
pub word32_lem : (n v : ℕ) → word32_of (little_endian (suc (suc (suc (suc n)))) v) ≡ v % 2 ^ 32
word32_lem n v = omega (
  arith,
  word32_sum (v % 256) (v / 256 % 256) (v / 256 / 256 % 256) (v / 256 / 256 / 256 % 256)
      (little_endian n (v / 256 / 256 / 256 / 256)),
)

-- The four bytes above them.
word64_sum :
    (bs : List ℕ) (w e f g h : ℕ)
    → word32_of bs ≡ w
    → w < 2 ^ 32
    → get_or bs 4 0 ≡ e
    → get_or bs 5 0 ≡ f
    → get_or bs 6 0 ≡ g
    → get_or bs 7 0 ≡ h
    → e < 256
    → f < 256
    → g < 256
    → word64_of bs ≡ w + e * 2 ^ 32 + f * 2 ^ 40 + g * 2 ^ 48 + h * 2 ^ 56
unfolding word64_of
word64_sum bs w e f g h pw hw pe pf pg ph he hf hg = rw (
  pw,
  pe,
  pf,
  pg,
  ph,
  bit_or_low 32 e w hw,
  bit_or_low 40 f (w + e * 2 ^ 32) (omega arith),
  bit_or_low 48 g (w + e * 2 ^ 32 + f * 2 ^ 40) (omega arith),
  bit_or_low 56 h (w + e * 2 ^ 32 + f * 2 ^ 40 + g * 2 ^ 48) (omega arith),
)

-- The eight bytes of a uint64 are joined to it.
pub word64_lem : (v : ℕ) → v < 2 ^ 64 → word64_of (little_endian 8 v) ≡ v
word64_lem v hv =
    word64_sum (little_endian 8 v) (v % 2 ^ 32) _ _ _ _ (word32_lem 4 v) (omega arith) refl refl
      refl refl (omega arith) (omega arith) (omega arith)
    ∙ omega arith
