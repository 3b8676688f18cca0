-- ===== src/Nanopb/Ostream.antt =====
-- ios/Pods/nanopb/pb_encode.c and pb_encode.h: output streams and the encoders of single values.
pub mod Writes
pub mod Values
pub mod Settled
use spar_somnong.Common.{
  ℕ, zero, suc, ◌+◌, ◌-◌, ◌*◌, ◌/◌, ◌^◌, bit_and, bit_or, Bool, true, false, Option, none, some,
  List, [], ◌∷◌, ◌++◌, length, take, ltb, leb, ◌==◌, if◌then◌else◌, ok, failed, fault, Action, ◌>>◌,
}
use spar_somnong.Nanopb.Types.{ErrorMessage, stream_full, io_error, u8, u64}

-- `stream->callback`. A callback given by a user is a function of `stream->state` and the bytes,
-- to its result and the new state.
pub data WriteCallback : Type 0 where
  no_callback buf_write : WriteCallback
  user : (List ℕ → List ℕ → Bool × List ℕ) → WriteCallback

-- struct pb_ostream_s. `state` is what the callback has taken so far: of a memory buffer, the bytes
-- before the pointer that the source keeps there. A null state is [].
pub record Ostream : Type 0 where
  pub callback : WriteCallback
  pub state : List ℕ
  pub max_size : ℕ
  pub bytes_written : ℕ
  pub errmsg : Option ErrorMessage

abbrev pub Encoder : Type 0
Encoder = Action Ostream (Unit {0})

-- PB_RETURN_ERROR: the first message stays.
abbrev pub first_error : Option ErrorMessage → ErrorMessage → Option ErrorMessage
first_error none e = some e
first_error (some d) e = some d

unfoldable pub raise : ErrorMessage → Encoder
raise e s = (failed, record s { errmsg = first_error s.errmsg e })

-- PB_OSTREAM_SIZING
abbrev pub pb_ostream_sizing : Ostream
pb_ostream_sizing = record {
  callback = no_callback;
  state = [];
  max_size = 0;
  bytes_written = 0;
  errmsg = none;
}

unfoldable pub pb_ostream_from_buffer : ℕ → Ostream
pb_ostream_from_buffer bufsize = record {
  callback = buf_write;
  state = [];
  max_size = bufsize;
  bytes_written = 0;
  errmsg = none;
}

abbrev pub is_null : WriteCallback → Bool
is_null no_callback = true
is_null buf_write = false
is_null (user f) = false

-- `stream->callback(stream, buf, count)`
abbrev pub call_write : WriteCallback → List ℕ → List ℕ → Bool × List ℕ
call_write no_callback state buf = (true, state)
call_write buf_write state buf = (true, state ++ buf)
call_write (user f) state buf = f state buf

abbrev pub count_written : ℕ → Encoder
count_written count s = (ok tt, record s { bytes_written = u64 (s.bytes_written + count) })

abbrev pub written : Bool × List ℕ → ℕ → Encoder
written (true, state) count s = count_written count (record s { state = state })
written (false, state) count s = raise io_error (record s { state = state })

-- A null `buf`, which the source passes on sizing streams only, is [].
unfoldable pub pb_write : List ℕ → ℕ → Encoder
unfolding raise
pb_write buf count s =
    if is_null s.callback
    then count_written count s
    else (if ltb s.max_size (u64 (s.bytes_written + count))
        then raise stream_full s
        else written (call_write s.callback s.state (take count buf)) count s)

abbrev pub prepend : ℕ → Option (List ℕ) → Option (List ℕ)
prepend b none = none
prepend b (some bs) = some (b ∷ bs)

-- The loop of `pb_encode_varint` with the bytes left in `buffer[10]`; `none` is a write past it.
unfoldable pub varint_groups : ℕ → ℕ → Option (List ℕ)
varint_groups zero value = if value == 0 then some [] else none
varint_groups (suc left) value =
    let more = prepend (bit_or (bit_and value 0x7F) 0x80) (varint_groups left (value / 2 ^ 7)) in
    if value == 0 then some [] else more

-- `buffer[i-1] &= 0x7F`
unfoldable pub clear_last : List ℕ → List ℕ
clear_last [] = []
clear_last (b ∷ []) = bit_and b 0x7F ∷ []
clear_last (b ∷ c ∷ bs) = b ∷ clear_last (c ∷ bs)

abbrev pub write_groups : Option (List ℕ) → Encoder
write_groups none s = (fault, s)
write_groups (some buffer) s = pb_write (clear_last buffer) (length buffer) s

unfoldable pub pb_encode_varint : ℕ → Encoder
pb_encode_varint value =
    if leb value 0x7F then pb_write (u8 value ∷ []) 1 else write_groups (varint_groups 10 value)

-- `value` is the bit pattern of an int64_t.
unfoldable pub zigzag : ℕ → ℕ
zigzag value = if leb (2 ^ 63) value then 2 ^ 64 - 1 - u64 (value * 2) else u64 (value * 2)

unfoldable pub pb_encode_svarint : ℕ → Encoder
pb_encode_svarint value = pb_encode_varint (zigzag value)

unfoldable pub pb_encode_fixed32 : ℕ → Encoder
pb_encode_fixed32 val =
    pb_write
      (u8 (bit_and val 0xFF)
        ∷ u8 (bit_and (val / 2 ^ 8) 0xFF)
        ∷ u8 (bit_and (val / 2 ^ 16) 0xFF)
        ∷ u8 (bit_and (val / 2 ^ 24) 0xFF)
        ∷ [])
      4

unfoldable pub pb_encode_fixed64 : ℕ → Encoder
pb_encode_fixed64 val =
    pb_write
      (u8 (bit_and val 0xFF)
        ∷ u8 (bit_and (val / 2 ^ 8) 0xFF)
        ∷ u8 (bit_and (val / 2 ^ 16) 0xFF)
        ∷ u8 (bit_and (val / 2 ^ 24) 0xFF)
        ∷ u8 (bit_and (val / 2 ^ 32) 0xFF)
        ∷ u8 (bit_and (val / 2 ^ 40) 0xFF)
        ∷ u8 (bit_and (val / 2 ^ 48) 0xFF)
        ∷ u8 (bit_and (val / 2 ^ 56) 0xFF)
        ∷ [])
      8

unfoldable pub pb_encode_tag : ℕ → ℕ → Encoder
pb_encode_tag wiretype field_number =
    pb_encode_varint (bit_or (u64 (field_number * 2 ^ 3)) wiretype)

unfoldable pub pb_encode_string : List ℕ → ℕ → Encoder
pb_encode_string buffer size = do pb_encode_varint size; pb_write buffer size
