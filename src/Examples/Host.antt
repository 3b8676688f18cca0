-- ===== src/Examples/Host.antt =====
-- A program around ios/Pods/nanopb, and the message of Messages.antt as it receives it.
use spar_somnong.Common.{ℕ, List, [], ◌∷◌, arith, none, return, ◌>>=◌}
use spar_somnong.Nanopb.Memory.{Memory}
use spar_somnong.Nanopb.Istream.{pb_readbyte}
use spar_somnong.Nanopb.Istream.Progress.{pb_readbyte-Progress}
use spar_somnong.Nanopb.Istream.Reads.{input}
use spar_somnong.Nanopb.Decode.Target.{Target, on_stream, FieldAction}
use spar_somnong.Nanopb.Decode.Host.{Host}
use spar_somnong.Nanopb.Decode.Advances.{
  Advances, Advances-on_stream, Advances-bind, Advances-return, Advances-weaken,
}
use spar_somnong.Nanopb.Decode.EndingCallback.{Consumes}
use spar_somnong.Nanopb.Decode.EndingField.{IsRankedHost}
use spar_somnong.Examples.Messages.{program, depth, table-IsTagged, table-IsBelow}

-- A callback that reads one byte.
abbrev pub read_one : FieldAction (Unit {0})
read_one = on_stream pb_readbyte >>= λ _. return tt

-- A host that has no memory to allocate.
abbrev pub host : Host
host = record {
  program = program;
  realloc = λ mem ptr size. none;
  free = λ mem ptr. mem;
  decode_callback = λ function field arg. read_one;
  decode_extension = λ function extension tag wire_type. return tt;
  idle_calls = 0;
  fixed_count_size_at = λ fuel. 900;
}

abbrev pub blank : Memory
blank a = 0

-- 300, and the words 1 and 2.
abbrev pub wire : List ℕ
wire = 8 ∷ 0xAC ∷ 2 ∷ 0x12 ∷ 10 ∷ 10 ∷ 8 ∷ 1 ∷ 0 ∷ 0 ∷ 0 ∷ 2 ∷ 0 ∷ 0 ∷ 0 ∷ []

-- The first `n` bytes of the message.
abbrev pub received : ℕ → Target
received n = record { stream = input wire n; memory = blank }

read_one-Advances : (t : Target) → Advances 1 t (read_one t)
read_one-Advances t =
    Advances-bind (on_stream pb_readbyte) (λ _. return tt) 1 t
      (Advances-on_stream pb_readbyte 1 t (pb_readbyte-Progress t.stream))
      (λ a u le. Advances-return tt u)

pub read_one-Consumes : Consumes read_one
read_one-Consumes = record {
  ending = λ t. Advances-weaken 1 0 t (read_one t) (omega arith) (read_one-Advances t);
  takes = λ t lt. read_one-Advances t;
}

abbrev pub ranked_host : IsRankedHost host
ranked_host = record {
  rank = depth;
  has_tags = table-IsTagged;
  below = table-IsBelow;
  callbacks = λ function field arg. read_one-Consumes;
}
