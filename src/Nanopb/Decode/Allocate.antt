-- ===== src/Nanopb/Decode/Allocate.antt =====
-- ios/Pods/nanopb/pb_decode.c: `allocate_field`.
use spar_somnong.Common.{
  ℕ, ◌-◌, ◌*◌, ◌/◌, ◌^◌, Bool, ◌&&◌, ◌||◌, ◌==◌, ltb, leb, if◌then◌else◌, Option, none, some, ok,
}
use spar_somnong.Nanopb.Types.{u64, invalid_size, size_too_large, realloc_failed}
use spar_somnong.Nanopb.Memory.{Memory, load_pointer}
use spar_somnong.Nanopb.Decode.Target.{FieldAction, refuse, store}

-- The C library's `realloc`: the memory, the old pointer and the size, to the new pointer and the
-- memory with the old contents moved.
abbrev pub Realloc : Type 0
Realloc = Memory → ℕ → ℕ → Option (ℕ × Memory)

abbrev pub reallocated : ℕ → Option (ℕ × Memory) → FieldAction (Unit {0})
reallocated p_data none t = refuse realloc_failed t
reallocated p_data (some (ptr, mem)) t = (ok tt, record t { memory = store mem 8 p_data ptr })

-- The test for a product of sizes that does not fit, which divides only if a factor is large.
unfoldable pub is_too_large : ℕ → ℕ → Bool
is_too_large data_size array_size =
    let check_limit = 2 ^ 32 in
    let size_max = 2 ^ 64 - 1 in
    (leb check_limit data_size || leb check_limit array_size)
    && ltb (size_max / array_size) data_size

unfoldable pub allocate_field : Realloc → ℕ → ℕ → ℕ → FieldAction (Unit {0})
allocate_field realloc p_data data_size array_size t =
    if data_size == 0 || array_size == 0
    then refuse invalid_size t
    else (if is_too_large data_size array_size
        then refuse size_too_large t
        else reallocated p_data
            (realloc t.memory (load_pointer t.memory p_data) (u64 (array_size * data_size))) t)
