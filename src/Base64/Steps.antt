-- ===== src/Base64/Steps.antt =====
-- The steps of `f_b64_pton` on a target with room, and the groups of `f_b64_ntop`'s text.
use spar_somnong.Common.{
  ℕ, ◌+◌, ◌*◌, ◌/◌, ◌^◌, ◌<◌, ◌≡◌, refl, false, List, [], ◌∷◌, ◌++◌, append_assoc, length,
  length-append, leb, arith, some, bit_and, bit_or, set, set-append, get_or-append, sym,
}
use spar_somnong.Nanopb.Types.{u8, u32}
use spar_somnong.Base64.Table.{base64_at, strchr-base64_at, isspace-base64_at, base64_at-pad64}
use spar_somnong.Base64.Decode.{Pton, or_at, put, pton_step, pton_loop}

-- A character of the alphabet makes one step.
pub pton_loop-digit :
    (targsize i : ℕ) (src : List ℕ) (s s' : Pton)
    → i < 64
    → pton_step targsize s (some i) ≡ some s'
    → pton_loop targsize (base64_at i ∷ src) s ≡ pton_loop targsize src s'
unfolding pton_loop
pton_loop-digit targsize i src s s' h step =
    rw (strchr-base64_at i h, isspace-base64_at i h, base64_at-pad64 i h, step) refl

-- The target holds `pre`, and `post` from the index on.
abbrev pub stand : List ℕ → List ℕ → ℕ → Pton
stand pre post state = record { target = some (pre ++ post); tarindex = length pre; state = state }

module _ (targsize : ℕ) (small : targsize < 2 ^ 32) (pre : List ℕ) (d : ℕ) where
  pub step0 :
      (x : ℕ) (post : List ℕ)
      → length pre < targsize
      → pton_step targsize (stand pre (x ∷ post) 0) (some d)
        ≡ some (stand pre (u8 (d * 4) ∷ post) 1)
  unfolding put
  step0 x post h =
      let e : leb targsize (length pre) ≡ false = ground arith in
      rw (e, set-append pre x (u8 (d * 4)) post) refl

  push_length : (x : ℕ) → length (pre ++ (x ∷ [])) ≡ length pre + 1
  push_length x = length-append pre (x ∷ [])

  -- The value for the next byte goes behind the one that is completed.
  two_bytes :
      (x y v w : ℕ) (post : List ℕ)
      → length pre + 1 < targsize
      → set (or_at (pre ++ (x ∷ y ∷ post)) (length pre) v) (u32 (length pre + 1)) w
        ≡ (pre ++ (u8 (bit_or x v) ∷ [])) ++ (w ∷ post)
  two_bytes x y v w post h =
      let x' = u8 (bit_or x v) in
      let i : u32 (length pre + 1) ≡ length (pre ++ (x' ∷ [])) = omega (arith, push_length x') in
      let split = sym (append_assoc pre (x' ∷ []) (y ∷ post)) in
      rw (get_or-append pre x 0 (y ∷ post), set-append pre x x' (y ∷ post), i, split)
        (set-append (pre ++ (x' ∷ [])) y w post)

  pub step1 :
      (x y : ℕ) (post : List ℕ)
      → length pre + 1 < targsize
      → pton_step targsize (stand pre (x ∷ y ∷ post) 1) (some d)
        ≡ some (stand (pre ++ (u8 (bit_or x (d / 16)) ∷ [])) (u8 (bit_and d 0x0f * 16) ∷ post) 2)
  unfolding put
  step1 x y post h =
      let x' = u8 (bit_or x (d / 16)) in
      let fits : leb targsize (u32 (length pre + 1)) ≡ false = ground arith in
      let both = two_bytes x y (d / 16) (u8 (bit_and d 0x0f * 16)) post h in
      let i : u32 (length pre + 1) ≡ length (pre ++ (x' ∷ [])) = omega (arith, push_length x') in
      rw (fits, both, i) refl

  pub step2 :
      (x y : ℕ) (post : List ℕ)
      → length pre + 1 < targsize
      → pton_step targsize (stand pre (x ∷ y ∷ post) 2) (some d)
        ≡ some (stand (pre ++ (u8 (bit_or x (d / 4)) ∷ [])) (u8 (bit_and d 0x03 * 64) ∷ post) 3)
  unfolding put
  step2 x y post h =
      let x' = u8 (bit_or x (d / 4)) in
      let fits : leb targsize (u32 (length pre + 1)) ≡ false = ground arith in
      let both = two_bytes x y (d / 4) (u8 (bit_and d 0x03 * 64)) post h in
      let i : u32 (length pre + 1) ≡ length (pre ++ (x' ∷ [])) = omega (arith, push_length x') in
      rw (fits, both, i) refl

  pub step3 :
      (x : ℕ) (post : List ℕ)
      → length pre < targsize
      → pton_step targsize (stand pre (x ∷ post) 3) (some d)
        ≡ some (stand (pre ++ (u8 (bit_or x d) ∷ [])) post 0)
  unfolding put
  step3 x post h =
      let x' = u8 (bit_or x d) in
      let fits : leb targsize (length pre) ≡ false = ground arith in
      let i : u32 (length pre + 1) ≡ length (pre ++ (x' ∷ [])) = omega (arith, push_length x') in
      let split = sym (append_assoc pre (x' ∷ []) post) in
      rw (fits, get_or-append pre x 0 post, set-append pre x x' post, i, split) refl
