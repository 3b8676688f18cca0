-- ===== src/Nanopb/Decode/Callback.antt =====
-- ios/Pods/nanopb/pb_decode.c: `decode_callback_field`.
use spar_somnong.Common.{
  ℕ, zero, suc, ◌+◌, ◌||◌, List, length, ◌==◌, if◌then◌else◌, Outcome, ok, failed, fault,
  out_of_fuel, ◌>>=◌, ◌>>◌, exhausted,
}
use spar_somnong.Nanopb.Types.{wt_string, wt_64bit, wt_32bit, callback_failed}
use spar_somnong.Nanopb.Memory.{load_pointer, callback_arg}
use spar_somnong.Nanopb.Istream.{Istream, pb_istream_from_buffer}
use spar_somnong.Nanopb.Istream.Values.{pb_skip_field, read_raw_value, pb_make_string_substream}
use spar_somnong.Nanopb.Iter.{PbFieldIter, current}
use spar_somnong.Nanopb.Decode.Target.{Target, FieldAction, on_stream, refuse}
use spar_somnong.Nanopb.Decode.Host.{Host}
use spar_somnong.Nanopb.Decode.Substream.{close_and_return}

-- `*size` after `read_raw_value`.
abbrev pub raw_size : ℕ → List ℕ → ℕ
raw_size wire_type bytes =
    if wire_type == wt_64bit then 8 else (if wire_type == wt_32bit then 4 else length bytes)

-- The buffer's stream is dropped.
abbrev pub back_to : Istream → Outcome (Unit {0}) × Target → Outcome (Unit {0}) × Target
back_to s (status, t) = (status, record t { stream = s })

-- `do { if (!callback) ...; } while (substream.bytes_left);`
unfoldable pub callback_loop : ℕ → FieldAction (Unit {0}) → FieldAction (Unit {0})
callback_loop zero callback = exhausted
callback_loop (suc rounds) callback =
    let more = callback_loop rounds callback in
    callback >> λ t. if t.stream.bytes_left == 0 then (ok tt, t) else more t

-- What follows the loop, on the stream itself.
abbrev pub close_callback : Outcome (Unit {0}) × Target → Istream → Outcome (Unit {0}) × Target
close_callback (ok _, t) s = close_and_return t.stream (ok tt) (record t { stream = s })
close_callback (failed, t) s = refuse callback_failed (record t { stream = s })
close_callback (fault, t) s = (fault, record t { stream = s })
close_callback (out_of_fuel, t) s = (out_of_fuel, record t { stream = s })

-- `callback` is the user's function at the field and its argument. A round for each byte of the
-- substream, for each call that reads nothing, and one more are enough.
unfoldable pub callback_string : ℕ → FieldAction (Unit {0}) → FieldAction (Unit {0})
callback_string idle callback = on_stream pb_make_string_substream >>= λ sub t.
    close_callback
      (callback_loop (suc (idle + sub.bytes_left)) callback (record t { stream = sub })) t.stream

-- A single value is read first, so that the callback can read it from a stream of its own.
unfoldable pub callback_scalar : ℕ → FieldAction (Unit {0}) → FieldAction (Unit {0})
callback_scalar wire_type callback = on_stream (read_raw_value wire_type 10) >>= λ bytes t.
    back_to t.stream
      (callback (record t { stream = pb_istream_from_buffer bytes (raw_size wire_type bytes) }))

unfoldable pub decode_callback_field : Host → ℕ → PbFieldIter → FieldAction (Unit {0})
decode_callback_field host wire_type it t =
    let function = load_pointer t.memory it.p_data in
    let callback = host.decode_callback function (current it) (it.p_data + callback_arg) in
    if it.p_data == 0 || function == 0
    then on_stream (pb_skip_field wire_type) t
    else (if wire_type == wt_string
        then callback_string host.idle_calls callback t
        else callback_scalar wire_type callback t)
