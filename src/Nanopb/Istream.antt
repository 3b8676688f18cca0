-- ===== src/Nanopb/Istream.antt =====
-- ios/Pods/nanopb/pb_decode.c and pb_decode.h: input streams and reading from them.
pub mod Varints
pub mod Progress
pub mod ProgressValues
pub mod ProgressSubstream
pub mod Reads
pub mod Reads32
pub mod Words
pub mod ReadsValues
pub mod Values
use spar_somnong.Common.{
  ℕ, zero, suc, ◌+◌, ◌-◌, ◌*◌, ◌/◌, ◌^◌, bit_and, bit_or, Bool, true, false, not, ◌&&◌, ◌||◌,
  Option, none, some, List, [], ◌∷◌, take, drop, get_or, ltb, leb, ◌==◌, if◌then◌else◌, Outcome, ok,
  failed, fault, out_of_fuel, Action, ◌>>=◌, return, exhausted, fail,
}
use spar_somnong.Nanopb.Types.{
  ErrorMessage, end_of_stream, io_error, varint_overflow, invalid_wire_type,
  parent_stream_too_short, u8, u32, u64, wt_varint, wt_64bit, wt_string, wt_32bit,
}

-- `stream->callback`. A callback given by a user is a function of `stream->state` and the count, to
-- its result, the bytes that it read, and the new state.
pub data ReadCallback : Type 0 where
  buf_read : ReadCallback
  user : (List ℕ → ℕ → Bool × List ℕ × List ℕ) → ReadCallback

-- struct pb_istream_s. Of a memory buffer `state` is what lies from the source's pointer on.
pub record Istream : Type 0 where
  pub callback : ReadCallback
  pub state : List ℕ
  pub bytes_left : ℕ
  pub errmsg : Option ErrorMessage

abbrev pub Decoder {ℓ} : Type ℓ → Type ℓ
Decoder A = Action Istream A

abbrev pub first_error : Option ErrorMessage → ErrorMessage → Option ErrorMessage
first_error none e = some e
first_error (some d) e = some d

-- PB_RETURN_ERROR: the first message stays.
unfoldable pub raise {ℓ} : {A : Type ℓ} → ErrorMessage → Decoder A
raise e s = (failed, record s { errmsg = first_error s.errmsg e })

unfoldable pub pb_istream_from_buffer : List ℕ → ℕ → Istream
pb_istream_from_buffer buf bufsize = record {
  callback = buf_read;
  state = buf;
  bytes_left = bufsize;
  errmsg = none;
}

abbrev pub call_read : ReadCallback → List ℕ → ℕ → Bool × List ℕ × List ℕ
call_read buf_read state count = (true, take count state, drop count state)
call_read (user f) state count = f state count

abbrev pub was_read : Bool × List ℕ × List ℕ → ℕ → Decoder (List ℕ)
was_read (true, bytes, state) count s =
    (ok bytes, record s { state = state; bytes_left = s.bytes_left - count })
was_read (false, bytes, state) count s = raise io_error (record s { state = state })

-- `pb_read` where `buf` is not null or the stream is a memory buffer.
unfoldable pub read_now : ℕ → Decoder (List ℕ)
unfolding raise
read_now count s =
    if ltb s.bytes_left count
    then raise end_of_stream s
    else was_read (call_read s.callback s.state count) count s

-- The loop that skips input bytes of a user's stream, 16 at a time.
unfoldable pub skip_chunks : ℕ → ℕ → Decoder (List ℕ)
skip_chunks zero count = if ltb 16 count then exhausted else read_now count
skip_chunks (suc fuel) count =
    let more = read_now 16 >>= λ _. skip_chunks fuel (count - 16) in
    if ltb 16 count then more else read_now count

abbrev pub is_user : ReadCallback → Bool
is_user buf_read = false
is_user (user f) = true

-- `keep` is false where `buf` is null: the bytes are skipped.
unfoldable pub pb_read : Bool → ℕ → Decoder (List ℕ)
pb_read keep count s =
    if not keep && is_user s.callback then skip_chunks count count s else read_now count s

abbrev pub first_byte : List ℕ → ℕ
first_byte bs = get_or bs 0 0

abbrev pub byte_was_read : Bool × List ℕ × List ℕ → Decoder ℕ
byte_was_read (true, bytes, state) s =
    (ok (first_byte bytes), record s { state = state; bytes_left = s.bytes_left - 1 })
byte_was_read (false, bytes, state) s = raise io_error (record s { state = state })

unfoldable pub pb_readbyte : Decoder ℕ
unfolding raise
pb_readbyte s =
    if s.bytes_left == 0
    then raise end_of_stream s
    else byte_was_read (call_read s.callback s.state 1) s
