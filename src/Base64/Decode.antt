-- ===== src/Base64/Decode.antt =====
-- fbase64.c: `f_b64_pton`. The source is the string without its NUL, the target the bytes at the
-- pointer, or `none` for a null pointer. `none` is the result -1.
use spar_somnong.Common.{
  ℕ, zero, suc, ◌+◌, ◌*◌, ◌/◌, bit_and, bit_or, Bool, true, ◌&&◌, Option, none, some, List, [], ◌∷◌,
  get_or, set, leb, ◌==◌, if◌then◌else◌,
}
use spar_somnong.Nanopb.Types.{u8, u32}
use spar_somnong.Base64.Table.{base64, strchr, isspace, pad64}

-- The variables of the loop.
pub record Pton : Type 0 where
  pub target : Option (List ℕ)
  pub tarindex : ℕ
  pub state : ℕ

-- `target[i] |= v`
abbrev pub or_at : List ℕ → ℕ → ℕ → List ℕ
or_at t i v = set t i (u8 (bit_or (get_or t i 0) v))

-- The cases of the switch on the state, on a target: `d` is `pos - Base64`.
unfoldable pub put : ℕ → ℕ → ℕ → List ℕ → ℕ → Option (List ℕ)
put targsize zero d t i = if leb targsize i then none else some (set t i (u8 (d * 4)))
put targsize (suc zero) d t i =
    if leb targsize (u32 (i + 1))
    then none
    else some (set (or_at t i (d / 16)) (u32 (i + 1)) (u8 (bit_and d 0x0f * 16)))
put targsize (suc (suc zero)) d t i =
    if leb targsize (u32 (i + 1))
    then none
    else some (set (or_at t i (d / 4)) (u32 (i + 1)) (u8 (bit_and d 0x03 * 64)))
put targsize (suc (suc (suc zero))) d t i = if leb targsize i then none else some (or_at t i d)
put targsize (suc (suc (suc (suc n)))) d t i = some t

-- `state` and `tarindex` after a character.
abbrev pub moved : Pton → Pton
moved s = record s {
  tarindex = if s.state == 0 then s.tarindex else u32 (s.tarindex + 1);
  state = if s.state == 3 then 0 else s.state + 1;
}

abbrev pub stored : Pton → Option (List ℕ) → Option Pton
stored s none = none
stored s (some t) = some (record (moved s) { target = some t })

abbrev pub step_on : ℕ → ℕ → Pton → Option (List ℕ) → Option Pton
step_on targsize d s none = some (moved s)
step_on targsize d s (some t) = stored s (put targsize s.state d t s.tarindex)

-- The body of the loop behind the two tests, on what `strchr` finds.
abbrev pub pton_step : ℕ → Pton → Option ℕ → Option Pton
pton_step targsize s none = none
pton_step targsize s (some d) = step_on targsize d s s.target

-- The state at the end of the loop, and what follows the padding character if there is one.
abbrev pub Loop : Type 0
Loop = Pton × Option (List ℕ)

abbrev pub then_loop : Option Pton → (Pton → Option Loop) → Option Loop
then_loop none k = none
then_loop (some s) k = k s

unfoldable pub pton_loop : ℕ → List ℕ → Pton → Option Loop
pton_loop targsize [] s = some (s, none)
pton_loop targsize (ch ∷ src) s =
    let skipped = pton_loop targsize src s in
    let stepped =
      then_loop (pton_step targsize s (strchr base64 ch)) (λ s'. pton_loop targsize src s') in
    if isspace ch then skipped else (if ch == pad64 then some (s, some src) else stepped)

unfoldable pub skip_spaces : List ℕ → List ℕ
skip_spaces [] = []
skip_spaces (ch ∷ src) = let rest = skip_spaces src in if isspace ch then rest else ch ∷ src

unfoldable pub only_spaces : List ℕ → Bool
only_spaces [] = true
only_spaces (ch ∷ src) = isspace ch && only_spaces src

-- What a call leaves: its result and the target.
abbrev pub Result : Type 0
Result = Option (ℕ × Option (List ℕ))

-- `target && target[tarindex] != 0`
abbrev pub no_extra_bits : Pton → Option (List ℕ) → Bool
no_extra_bits s none = true
no_extra_bits s (some t) = get_or t s.tarindex 0 == 0

-- Case 3 of the second switch, which case 2 falls through to.
unfoldable pub trailing : Pton → List ℕ → Result
trailing s src =
    if only_spaces src && no_extra_bits s s.target then some (s.tarindex, s.target) else none

abbrev pub second_pad : Pton → List ℕ → Result
second_pad s [] = none
second_pad s (ch ∷ src) = if ch == pad64 then trailing s src else none

-- The second switch, on what follows the padding character.
unfoldable pub padded : Pton → List ℕ → Result
padded s src =
    if s.state == 2
    then second_pad s (skip_spaces src)
    else (if s.state == 3 then trailing s src else none)

abbrev pub finish : Option Loop → Result
finish none = none
finish (some (s, none)) = if s.state == 0 then some (s.tarindex, s.target) else none
finish (some (s, some src)) = padded s src

unfoldable pub f_b64_pton : List ℕ → Option (List ℕ) → ℕ → Result
f_b64_pton src target targsize =
    finish (pton_loop targsize src (record { target = target; tarindex = 0; state = 0 }))
