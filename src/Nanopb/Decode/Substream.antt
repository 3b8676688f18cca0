-- ===== src/Nanopb/Decode/Substream.antt =====
-- ios/Pods/nanopb/pb_decode.c: work on the payload of a length-delimited field, as the callers of
-- `pb_make_string_substream` do it.
use spar_somnong.Common.{ℕ, ◌+◌, ◌*◌, Outcome, ok, failed, fault, out_of_fuel, ◌>>=◌}
use spar_somnong.Nanopb.Types.{PbField, u32, u64}
use spar_somnong.Nanopb.Memory.{load_size}
use spar_somnong.Nanopb.Istream.{Istream}
use spar_somnong.Nanopb.Istream.Values.{pb_make_string_substream, pb_close_string_substream}
use spar_somnong.Nanopb.Decode.Target.{Target, FieldAction, on_stream, store}

-- `if (!pb_close_string_substream(stream, &substream)) return false; return status;`
unfoldable pub close_and_return : Istream → Outcome (Unit {0}) → FieldAction (Unit {0})
close_and_return sub status = on_stream (pb_close_string_substream sub) >>= λ _ t. (status, t)

-- What follows the work on the substream: nothing, if that did not come to an end.
abbrev pub after_substream :
    (Outcome (Unit {0}) → Istream → FieldAction (Unit {0}))
    → Outcome (Unit {0}) × Target
    → Istream
    → Outcome (Unit {0}) × Target
after_substream k (fault, t) s = (fault, record t { stream = s })
after_substream k (out_of_fuel, t) s = (out_of_fuel, record t { stream = s })
after_substream k (failed, t) s = k failed t.stream (record t { stream = s })
after_substream k (ok _, t) s = k (ok tt) t.stream (record t { stream = s })

-- Makes the substream, runs `act` on it, and goes on with the outcome on the stream itself.
unfoldable pub with_substream :
    FieldAction (Unit {0})
    → (Outcome (Unit {0}) → Istream → FieldAction (Unit {0}))
    → FieldAction (Unit {0})
with_substream act k = on_stream pb_make_string_substream >>= λ sub t.
    after_substream k (act (record t { stream = sub })) t.stream

-- The same where the stream is closed whatever the outcome was.
unfoldable pub in_substream : FieldAction (Unit {0}) → FieldAction (Unit {0})
in_substream act = with_substream act (λ status sub. close_and_return sub status)

-- The address of the entry behind the `size` entries of an array: the product is a uint32_t.
unfoldable pub item_address : PbField → ℕ → ℕ → ℕ
item_address field start size = u64 (start + u32 (field.data_size * size))

-- `(*size)++`
unfoldable pub count_item : ℕ → FieldAction (Unit {0})
count_item p_size t =
    (ok tt, record t { memory = store t.memory 4 p_size (load_size t.memory p_size + 1) })
