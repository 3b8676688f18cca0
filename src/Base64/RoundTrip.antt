-- ===== src/Base64/RoundTrip.antt =====
-- `f_b64_pton` reads back what `f_b64_ntop` writes.
use spar_somnong.Common.{
  ℕ, suc, ◌+◌, ◌*◌, ◌^◌, ◌<◌, ◌≡◌, refl, List, [], ◌∷◌, ◌++◌, append_assoc, append-nil, length,
  length-append, All, arith, some, bit_and, bit_and_ones, get_or-append, ◌∙◌,
}
use spar_somnong.Nanopb.Types.{u8}
use spar_somnong.Base64.Table.{base64_at, pad64, isspace}
use spar_somnong.Base64.Encode.{output0, output1, output2, output3}
use spar_somnong.Base64.Decode.{
  Result, pton_loop, only_spaces, skip_spaces, trailing, padded, finish, f_b64_pton,
}
use spar_somnong.Base64.Format.{IsByte, text}
use spar_somnong.Base64.Groups.{groups, groups-text}
use spar_somnong.Base64.Bytes.{
  output0-lt, output1-lt, output2-lt, output3-lt, first_byte, second_byte, third_byte,
}
use spar_somnong.Base64.Steps.{stand, pton_loop-digit, step0, step1, step2, step3}

-- The bits of the next byte that the second and the third character of a group hold.
abbrev bits1 : ℕ → ℕ → ℕ
bits1 a b = u8 (bit_and (output1 a b) 0x0f * 16)

abbrev bits2 : ℕ → ℕ → ℕ
bits2 b c = u8 (bit_and (output2 b c) 0x03 * 64)

module _ (targsize : ℕ) (small : targsize < 2 ^ 32) (pre : List ℕ) (a : ℕ) (ha : IsByte a) (b : ℕ)
    (hb : IsByte b) where
  two_digits :
      (src : List ℕ) (x y : ℕ) (post : List ℕ)
      → length pre + 1 < targsize
      → pton_loop targsize
          (base64_at (output0 a) ∷ base64_at (output1 a b) ∷ src)
          (stand pre (x ∷ y ∷ post) 0)
        ≡ pton_loop targsize src (stand (pre ++ (a ∷ [])) (bits1 a b ∷ post) 2)
  two_digits src x y post h =
      pton_loop-digit targsize (output0 a) _ _ (stand pre (u8 (output0 a * 4) ∷ y ∷ post) 1)
        (output0-lt a ha) (step0 targsize small pre (output0 a) x (y ∷ post) (omega arith))
      ∙ pton_loop-digit targsize (output1 a b) _ _ (stand (pre ++ (a ∷ [])) (bits1 a b ∷ post) 2)
          (output1-lt a b hb)
          (rw (first_byte a b ha hb) at
            (step1 targsize small pre (output1 a b) (u8 (output0 a * 4)) y post h))

  module _ (c : ℕ) (hc : IsByte c) where
    three_digits :
        (src : List ℕ) (x y z : ℕ) (post : List ℕ)
        → length pre + 2 < targsize
        → pton_loop targsize
            (base64_at (output0 a) ∷ base64_at (output1 a b) ∷ base64_at (output2 b c) ∷ src)
            (stand pre (x ∷ y ∷ z ∷ post) 0)
          ≡ pton_loop targsize src (stand ((pre ++ (a ∷ [])) ++ (b ∷ [])) (bits2 b c ∷ post) 3)
    three_digits src x y z post h =
        let l : length (pre ++ (a ∷ [])) ≡ length pre + 1 = length-append pre (a ∷ []) in
        two_digits _ x y (z ∷ post) (omega arith)
        ∙ pton_loop-digit targsize (output2 b c) _ _
            (stand ((pre ++ (a ∷ [])) ++ (b ∷ [])) (bits2 b c ∷ post) 3) (output2-lt b c hc)
            (rw (second_byte a b c hb hc) at (
              step2 targsize small (pre ++ (a ∷ [])) (output2 b c) (bits1 a b) z post
                (omega (arith, l))))

    whole_group :
        (src : List ℕ) (x y z : ℕ) (post : List ℕ)
        → length pre + 2 < targsize
        → pton_loop targsize
            (base64_at (output0 a)
              ∷ base64_at (output1 a b)
              ∷ base64_at (output2 b c)
              ∷ base64_at (output3 c)
              ∷ src)
            (stand pre (x ∷ y ∷ z ∷ post) 0)
          ≡ pton_loop targsize src (stand (pre ++ (a ∷ b ∷ c ∷ [])) post 0)
    whole_group src x y z post h =
        let two = (pre ++ (a ∷ [])) ++ (b ∷ []) in
        let l : length two ≡ length pre + 2 =
          omega (arith, length-append (pre ++ (a ∷ [])) (b ∷ []), length-append pre (a ∷ [])) in
        let same : two ++ (c ∷ []) ≡ pre ++ (a ∷ b ∷ c ∷ []) =
          append_assoc (pre ++ (a ∷ [])) (b ∷ []) (c ∷ [])
          ∙ append_assoc pre (a ∷ []) (b ∷ c ∷ []) in
        three_digits _ x y z post h
        ∙ pton_loop-digit targsize (output3 c) _ _ (stand (pre ++ (a ∷ b ∷ c ∷ [])) post 0)
            (output3-lt c)
            (rw (third_byte b c hc, same) at
              (step3 targsize small two (output3 c) (bits2 b c) post (omega (arith, l))))

-- The call succeeds with the count, and the target begins with the bytes.
pub record Returns (bytes : List ℕ) (n : ℕ) (r : Result) : Type 0 where
  pub rest : List ℕ
  pub result : r ≡ some (n, some (bytes ++ rest))

module _ (targsize : ℕ) (pre post : List ℕ) where
  one_byte_left :
      finish (pton_loop targsize (pad64 ∷ pad64 ∷ []) (stand pre (0 ∷ post) 2))
      ≡ some (length pre, some (pre ++ (0 ∷ post)))
  unfolding pton_loop padded skip_spaces trailing only_spaces isspace
  one_byte_left = rw (get_or-append pre 0 0 post) refl

  two_bytes_left :
      finish (pton_loop targsize (pad64 ∷ []) (stand pre (0 ∷ post) 3))
      ≡ some (length pre, some (pre ++ (0 ∷ post)))
  unfolding pton_loop padded trailing only_spaces isspace
  two_bytes_left = rw (get_or-append pre 0 0 post) refl

-- No bit of a last byte is left over.
bits1-zero : (a : ℕ) → bits1 a 0 ≡ 0
bits1-zero a = omega (arith, bit_and_ones 4 (output1 a 0), bit_and_ones 2 a)

bits2-zero : (b : ℕ) → bits2 b 0 ≡ 0
bits2-zero b = omega (arith, bit_and_ones 2 (output2 b 0), bit_and_ones 4 b)

module _ (targsize : ℕ) (small : targsize < 2 ^ 32) where
  pton-groups :
      (src pre post : List ℕ)
      → All IsByte src
      → length src < length post
      → length pre + length src < targsize
      → Returns
          (pre ++ src)
          (length pre + length src)
          (finish (pton_loop targsize (groups src) (stand pre post 0)))
  unfolding groups
  pton-groups [] pre post h room fits =
      unfold pton_loop in
      record {
        rest = post;
        result = rw (append-nil) (let e : length pre + 0 ≡ length pre = omega arith in rw e refl);
      }
  pton-groups (a ∷ []) pre [] h room fits = absurd (omega arith)
  pton-groups (a ∷ []) pre (x ∷ []) h room fits = absurd (omega arith)
  pton-groups (a ∷ []) pre (x ∷ y ∷ post) h room fits =
      let l : length (pre ++ (a ∷ [])) ≡ length pre + 1 = length-append pre (a ∷ []) in
      let start =
        two_digits targsize small pre a h.0 0 (omega arith) (pad64 ∷ pad64 ∷ []) x y post fits in
      record {
        rest = 0 ∷ post;
        result = rw (start, bits1-zero a, one_byte_left targsize (pre ++ (a ∷ [])) post, l) refl;
      }
  pton-groups (a ∷ b ∷ []) pre [] h room fits = absurd (omega arith)
  pton-groups (a ∷ b ∷ []) pre (x ∷ []) h room fits = absurd (omega arith)
  pton-groups (a ∷ b ∷ []) pre (x ∷ y ∷ []) h room fits = absurd (omega arith)
  pton-groups (a ∷ b ∷ []) pre (x ∷ y ∷ z ∷ post) h room fits =
      let both = append_assoc pre (a ∷ []) (b ∷ []) in
      let l : length (pre ++ (a ∷ b ∷ [])) ≡ length pre + 2 = length-append pre (a ∷ b ∷ []) in
      let start =
        three_digits targsize small pre a h.0 b h.1.0 0 (omega arith) (pad64 ∷ []) x y z post
          fits in
      record {
        rest = 0 ∷ post;
        result =
            rw (start, bits2-zero b, both, two_bytes_left targsize (pre ++ (a ∷ b ∷ [])) post, l)
              refl;
      }
  pton-groups (a ∷ b ∷ c ∷ src) pre [] h room fits = absurd (omega arith)
  pton-groups (a ∷ b ∷ c ∷ src) pre (x ∷ []) h room fits = absurd (omega arith)
  pton-groups (a ∷ b ∷ c ∷ src) pre (x ∷ y ∷ []) h room fits = absurd (omega arith)
  pton-groups (a ∷ b ∷ c ∷ src) pre (x ∷ y ∷ z ∷ post) h room fits =
      let group = a ∷ b ∷ c ∷ [] in
      let l : length (pre ++ group) ≡ length pre + 3 = length-append pre group in
      let n : length (pre ++ group) + length src ≡ length pre + suc (suc (suc (length src))) =
        omega (arith, l) in
      let start =
        whole_group targsize small pre a h.0 b h.1.0 c h.1.1.0 (groups src) x y z post
          (omega arith) in
      let rest = pton-groups src (pre ++ group) post h.1.1.1 (omega arith) (omega (arith, l)) in
      rw start (rw (n, append_assoc pre group src) at rest)

-- The base64 text of a sequence of bytes, as RFC 4648 defines it, is decoded to these bytes:
-- for a target of more bytes than there are, and fewer than 2 ^ 32, `f_b64_pton` returns their
-- number and the target begins with them.
pub f_b64_pton-text :
    (src target : List ℕ) (targsize : ℕ)
    → All IsByte src
    → targsize < 2 ^ 32
    → targsize ≡ length target
    → length src < targsize
    → Returns src (length src) (f_b64_pton (text src) (some target) targsize)
unfolding f_b64_pton
f_b64_pton-text src target targsize h small whole room =
    let e : 0 + length src ≡ length src = omega arith in
    rw (← groups-text src h)
      (rw e at (pton-groups targsize small src [] target h (omega arith) (omega arith)))
