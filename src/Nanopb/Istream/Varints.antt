-- ===== src/Nanopb/Istream/Varints.antt =====
-- ios/Pods/nanopb/pb_decode.c: reading varints of 32 and 64 bits.
use spar_somnong.Common.{
  ℕ, zero, suc, ◌+◌, ◌*◌, ◌/◌, ◌^◌, bit_and, bit_or, Bool, false, not, ◌&&◌, ◌||◌, ltb, leb, ◌==◌,
  if◌then◌else◌, Outcome, ok, failed, fault, out_of_fuel, ◌>>=◌, return, exhausted,
}
use spar_somnong.Nanopb.Types.{varint_overflow, u8, u32, u64}
use spar_somnong.Nanopb.Istream.{Istream, Decoder, raise, pb_readbyte}

-- The test on a byte of the varint past bit 31: it must be zero or extend the sign.
unfoldable pub bad_extension : ℕ → ℕ → ℕ → Bool
bad_extension bitpos result byte =
    let sign_extension : ℕ = if ltb bitpos 63 then 0xFF else 0x01 in
    not (bit_and byte 0x7F == 0) && (result / 2 ^ 31 == 0 || not (byte == sign_extension))

unfoldable pub varint32_add : ℕ → ℕ → ℕ → ℕ
varint32_add bitpos result byte =
    if leb 32 bitpos then result else bit_or result (u32 (bit_and byte 0x7F * 2 ^ bitpos))

-- What follows the loop: `bitpos` is 35 where the last byte stood at bit 28.
unfoldable pub varint32_end : ℕ → ℕ → ℕ → Decoder ℕ
varint32_end bitpos byte result =
    if bitpos == 35 && not (bit_and byte 0x70 == 0) then raise varint_overflow else return result

-- The multibyte loop of `pb_decode_varint32_eof`; `bitpos` is a uint_fast8_t of one byte.
unfoldable pub varint32_loop : ℕ → ℕ → ℕ → Decoder ℕ
varint32_loop zero bitpos result = exhausted
varint32_loop (suc fuel) bitpos result = do
  byte ← pb_readbyte
  let more = varint32_loop fuel (u8 (bitpos + 7)) (varint32_add bitpos result byte)
  if leb 32 bitpos && bad_extension bitpos result byte
      then raise varint_overflow
      else (if bit_and byte 0x80 == 0
          then varint32_end (u8 (bitpos + 7)) byte (varint32_add bitpos result byte)
          else more)

-- What follows the first byte. Each round reads a byte, so a round for each byte left and one
-- more are enough.
unfoldable pub varint32_rest : ℕ → Decoder ℕ
varint32_rest byte s =
    if bit_and byte 0x80 == 0
    then return byte s
    else varint32_loop (suc s.bytes_left) 7 (bit_and byte 0x7F) s

-- An outcome, whether `*eof` was set, and the stream.
abbrev pub EofOutcome {ℓ} : Type ℓ → Type ℓ
EofOutcome A = Outcome A × Bool × Istream

abbrev pub no_eof {ℓ} : {A : Type ℓ} → Outcome A × Istream → EofOutcome A
no_eof (r, s) = (r, false, s)

abbrev pub varint32_first : Outcome ℕ × Istream → EofOutcome ℕ
varint32_first (ok byte, s) = no_eof (varint32_rest byte s)
varint32_first (failed, s) = (failed, s.bytes_left == 0, s)
varint32_first (fault, s) = (fault, false, s)
varint32_first (out_of_fuel, s) = (out_of_fuel, false, s)

unfoldable pub pb_decode_varint32_eof : Istream → EofOutcome ℕ
pb_decode_varint32_eof s = varint32_first (pb_readbyte s)

unfoldable pub pb_decode_varint32 : Decoder ℕ
pb_decode_varint32 s = let (r, eof, t) = pb_decode_varint32_eof s in (r, t)

-- At most ten rounds: `bitpos` reaches 70 in the eleventh.
unfoldable pub varint_loop : ℕ → ℕ → ℕ → Decoder ℕ
varint_loop zero bitpos result = exhausted
varint_loop (suc fuel) bitpos result =
    let rest : Decoder ℕ = do
      byte ← pb_readbyte
      let result' = bit_or result (u64 (bit_and byte 0x7F * 2 ^ bitpos))
      let more = varint_loop fuel (u8 (bitpos + 7)) result'
      if bit_and byte 0x80 == 0 then return result' else more
    in if leb 64 bitpos then raise varint_overflow else rest

unfoldable pub pb_decode_varint : Decoder ℕ
pb_decode_varint = varint_loop 11 0 0
