-- ===== src/Base64/EncodeLaws.antt =====
-- fbase64.c: `f_b64_ntop` against the definition of base64 text.
use spar_somnong.Common.{
  ℕ, suc, ◌+◌, ◌^◌, ◌≤◌, ◌<◌, ◌≡◌, refl, true, false, Bool-cases, inl, inr, List, [], ◌∷◌, ◌++◌,
  append_assoc, append-nil, length, length-append, leb, ltb, ltb→le, le→ltb, arith, All,
}
use spar_somnong.Nanopb.Types.{u32, u64}
use spar_somnong.Base64.Table.{base64_at, pad64}
use spar_somnong.Base64.Format.{IsByte, text}
use spar_somnong.Base64.Groups.{groups, groups-text, length-groups}
use spar_somnong.Base64.Encode.{
  output0, output1, output2, output3, Ntop, minus_one, terminate, ntop_rest, ntop_loop, f_b64_ntop,
}

terminate_fits :
    (targsize : ℕ) (out : List ℕ)
    → length out < targsize
    → terminate targsize out ≡ (u32 (length out), out ++ (0 ∷ []))
unfolding terminate
terminate_fits targsize out h =
    let e : leb targsize (length out) ≡ false = ground arith in rw e refl

-- A padded group behind what is there, where it fits with the NUL.
ntop_rest-fits :
    (targsize : ℕ) (out : List ℕ) (a b third : ℕ)
    → targsize < 2 ^ 64
    → length out + 4 < targsize
    → ntop_rest targsize out a b third ≡ (
      u32 (length out + 4),
      (out ++ (base64_at (output0 a) ∷ base64_at (output1 a b) ∷ third ∷ pad64 ∷ [])) ++ (0 ∷ []),
    )
unfolding ntop_rest
ntop_rest-fits targsize out a b third small h =
    let group = base64_at (output0 a) ∷ base64_at (output1 a b) ∷ third ∷ pad64 ∷ [] in
    let e : ltb targsize (u64 (length out + 4)) ≡ false = le→ltb _ _ (omega arith) in
    let l : length (out ++ group) ≡ length out + 4 = length-append out group in
    let t = terminate_fits targsize (out ++ group) (omega (arith, l)) in rw e (rw l at t)

-- Where the text and its NUL fit, the loop writes both behind what is there.
ntop_loop-fits :
    (src : List ℕ) (targsize : ℕ) (out : List ℕ)
    → targsize < 2 ^ 64
    → length out + length (groups src) < targsize
    → ntop_loop src targsize out
      ≡ (u32 (length out + length (groups src)), (out ++ groups src) ++ (0 ∷ []))
unfolding ntop_loop groups
ntop_loop-fits [] targsize out small h =
    let e : length out + 0 ≡ length out = omega arith in
    rw (e, append-nil) (terminate_fits targsize out (omega arith))
ntop_loop-fits (a ∷ []) targsize out small h = ntop_rest-fits targsize out a 0 _ small h
ntop_loop-fits (a ∷ b ∷ []) targsize out small h = ntop_rest-fits targsize out a b _ small h
ntop_loop-fits (a ∷ b ∷ c ∷ src) targsize out small h =
    let group =
      base64_at (output0 a)
      ∷ base64_at (output1 a b)
      ∷ base64_at (output2 b c)
      ∷ base64_at (output3 c)
      ∷ [] in
    let e : ltb targsize (u64 (length out + 4)) ≡ false = le→ltb _ _ (omega arith) in
    let l : length (out ++ group) ≡ length out + 4 = length-append out group in
    let n : length out + 4 + length (groups src)
        ≡ length out + suc (suc (suc (suc (length (groups src))))) =
      omega arith in
    let more = ntop_loop-fits src targsize (out ++ group) small (omega (arith, l)) in
    rw e (rw (l, n, append_assoc out group (groups src)) at more)

-- With a target below 2 ^ 64 bytes that holds the text and a NUL, `f_b64_ntop` writes the
-- base64 text of the source's bytes, as RFC 4648 defines it, and the NUL, and returns the
-- length of the text in 32 bits.
pub f_b64_ntop-text :
    (src : List ℕ) (targsize : ℕ)
    → All IsByte src
    → targsize < 2 ^ 64
    → length (text src) < targsize
    → f_b64_ntop src targsize ≡ (u32 (length (text src)), text src ++ (0 ∷ []))
unfolding f_b64_ntop
f_b64_ntop-text src targsize bytes small h =
    let e : 0 + length (groups src) ≡ length (groups src) = omega arith in
    rw (← groups-text src bytes)
      (rw e at (ntop_loop-fits src targsize [] small (omega (arith, h, length-groups src))))

-- The call gave up, inside the target.
pub record GivesUp (targsize : ℕ) (r : Ntop) : Type 0 where
  pub result : r.0 ≡ minus_one
  pub in_bounds : length r.1 ≤ targsize

terminate_full :
    (targsize : ℕ) (out : List ℕ)
    → length out ≤ targsize
    → targsize ≤ length out
    → GivesUp targsize (terminate targsize out)
unfolding terminate
terminate_full targsize out le ge =
    let e : leb targsize (length out) ≡ true = ground arith in
    rw e (record { result = refl; in_bounds = le })

module _ (targsize : ℕ) (small : targsize + 4 < 2 ^ 64) where
  ntop_rest-full :
      (out : List ℕ) (a b third : ℕ)
      → length out ≤ targsize
      → targsize ≤ length out + 4
      → GivesUp targsize (ntop_rest targsize out a b third)
  unfolding ntop_rest
  ntop_rest-full out a b third le ge = elim (Bool-cases (ltb targsize (u64 (length out + 4)))) [
    | inl e ↦ rw e (record { result = refl; in_bounds = le })
    | inr n ↦
        let group = base64_at (output0 a) ∷ base64_at (output1 a b) ∷ third ∷ pad64 ∷ [] in
        let l : length (out ++ group) ≡ length out + 4 = length-append out group in
        let fit = ltb→le targsize (u64 (length out + 4)) n in
        rw n (terminate_full targsize (out ++ group) (omega (arith, l, fit)) (omega (arith, l)))
  ]

  ntop_loop-full :
      (src out : List ℕ)
      → length out ≤ targsize
      → targsize ≤ length out + length (groups src)
      → GivesUp targsize (ntop_loop src targsize out)
  unfolding ntop_loop groups
  ntop_loop-full [] out le ge = terminate_full targsize out le (omega arith)
  ntop_loop-full (a ∷ []) out le ge = ntop_rest-full out a 0 _ le ge
  ntop_loop-full (a ∷ b ∷ []) out le ge = ntop_rest-full out a b _ le ge
  ntop_loop-full (a ∷ b ∷ c ∷ src) out le ge =
      elim (Bool-cases (ltb targsize (u64 (length out + 4)))) [
        | inl e ↦ rw e (record { result = refl; in_bounds = le })
        | inr n ↦
            let group =
              base64_at (output0 a)
              ∷ base64_at (output1 a b)
              ∷ base64_at (output2 b c)
              ∷ base64_at (output3 c)
              ∷ [] in
            let l : length (out ++ group) ≡ length out + 4 = length-append out group in
            let fit = ltb→le targsize (u64 (length out + 4)) n in
            rw n (ntop_loop-full src (out ++ group) (omega (arith, l, fit)) (omega (arith, l)))
      ]

  -- With a target that is too small for the text and its NUL, and below 2 ^ 64 - 4 bytes,
  -- `f_b64_ntop` returns -1 and has written nothing behind the target's end.
  pub f_b64_ntop-full :
      (src : List ℕ) → targsize ≤ length (text src) → GivesUp targsize (f_b64_ntop src targsize)
  unfolding f_b64_ntop
  f_b64_ntop-full src ge =
      ntop_loop-full src [] (omega arith) (omega (arith, ge, length-groups src))
