-- ===== src/Base64/Encode.antt =====
-- fbase64.c: `f_b64_ntop`.
use spar_somnong.Common.{
  ℕ, ◌+◌, ◌*◌, ◌/◌, ◌^◌, ◌-◌, bit_and, List, [], ◌∷◌, ◌++◌, length, leb, ltb, if◌then◌else◌,
}
use spar_somnong.Nanopb.Types.{u64, u32, u8}
use spar_somnong.Base64.Table.{base64_at, pad64}

-- `output[0]` to `output[3]`; an unsigned char holds each.
abbrev pub output0 : ℕ → ℕ
output0 a = a / 4

abbrev pub output1 : ℕ → ℕ → ℕ
output1 a b = u8 (bit_and a 0x03 * 16 + b / 16)

abbrev pub output2 : ℕ → ℕ → ℕ
output2 b c = u8 (bit_and b 0x0f * 4 + c / 64)

abbrev pub output3 : ℕ → ℕ
output3 c = bit_and c 0x3f

-- What a call leaves: its result as the bit pattern of an int, and the part of the target that it
-- has written, from the target's begin on.
abbrev pub Ntop : Type 0
Ntop = ℕ × List ℕ

abbrev pub minus_one : ℕ
minus_one = 2 ^ 32 - 1

-- The end of the function: the NUL and the result.
unfoldable pub terminate : ℕ → List ℕ → Ntop
terminate targsize out =
    if leb targsize (length out) then (minus_one, out) else (u32 (length out), out ++ (0 ∷ []))

-- One padded group, of one or two bytes that are left; `third` is its third character.
unfoldable pub ntop_rest : ℕ → List ℕ → ℕ → ℕ → ℕ → Ntop
ntop_rest targsize out a b third =
    let done =
      terminate targsize
        (out ++ (base64_at (output0 a) ∷ base64_at (output1 a b) ∷ third ∷ pad64 ∷ [])) in
    if ltb targsize (u64 (length out + 4)) then (minus_one, out) else done

-- The loop over groups of three bytes, and what is left; `out` is the target so far.
unfoldable pub ntop_loop : List ℕ → ℕ → List ℕ → Ntop
ntop_loop [] targsize out = terminate targsize out
ntop_loop (a ∷ []) targsize out = ntop_rest targsize out a 0 pad64
ntop_loop (a ∷ b ∷ []) targsize out = ntop_rest targsize out a b (base64_at (output2 b 0))
ntop_loop (a ∷ b ∷ c ∷ src) targsize out =
    let more = ntop_loop src targsize (
      out
      ++ (base64_at (output0 a)
          ∷ base64_at (output1 a b)
          ∷ base64_at (output2 b c)
          ∷ base64_at (output3 c)
          ∷ [])) in
    if ltb targsize (u64 (length out + 4)) then (minus_one, out) else more

unfoldable pub f_b64_ntop : List ℕ → ℕ → Ntop
f_b64_ntop src targsize = ntop_loop src targsize []
