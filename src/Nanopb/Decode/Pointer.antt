-- ===== src/Nanopb/Decode/Pointer.antt =====
-- ios/Pods/nanopb/pb_decode.c: `decode_pointer_field`.
use spar_somnong.Common.{
  ℕ, zero, suc, ◌+◌, ◌-◌, ◌/◌, Bool, true, false, not, ◌&&◌, ◌||◌, some, ltb, leb, ◌==◌,
  if◌then◌else◌, Outcome, ok, failed, fault, out_of_fuel, ◌>>=◌, ◌>>◌, return, exhausted,
}
use spar_somnong.Nanopb.Types.{
  u32, u64, wt_string, pb_size_max, pb_ltype, pb_htype, too_many_array_entries, invalid_field_type,
}
use spar_somnong.Nanopb.Ltype
use spar_somnong.Nanopb.Htype
use spar_somnong.Nanopb.Memory.{load_pointer, load_size}
use spar_somnong.Nanopb.Istream.{Istream}
use spar_somnong.Nanopb.Istream.Values.{pb_make_string_substream}
use spar_somnong.Nanopb.Iter.{PbFieldIter, current}
use spar_somnong.Nanopb.Decode.Target.{Target, FieldAction, on_stream, refuse, assign}
use spar_somnong.Nanopb.Decode.Allocate.{Realloc, allocate_field}
use spar_somnong.Nanopb.Decode.Numbers.{FieldDecoder}
use spar_somnong.Nanopb.Decode.Blocks.{pointer_at}
use spar_somnong.Nanopb.Decode.Heap.{MemoryAction, on_memory}
use spar_somnong.Nanopb.Decode.Substream.{close_and_return, item_address, count_item}

-- A string or a byte array, which the field decoder allocates itself.
abbrev pub is_block : ℕ → Bool
is_block ltype = ltype == Ltype.string || ltype == Ltype.bytes

-- `allocated_size` after its increase: a division by zero stops the program.
abbrev pub guessed_size : ℕ → ℕ → ℕ → FieldAction ℕ
guessed_size allocated_size data_size bytes_left t =
    if data_size == 0
    then (fault, t)
    else (ok (u64 (allocated_size + ((bytes_left - 1) / data_size + 1))), t)

-- `defaults` is `pb_message_set_to_defaults` and `release` is `pb_release_single_field`.
module _ (realloc : Realloc) (defaults : ℕ → ℕ → MemoryAction (Unit {0}))
    (release : PbFieldIter → MemoryAction (Unit {0})) (func : FieldDecoder) (it : PbFieldIter) where
  unfoldable pub initialize_pointer_field : ℕ → FieldAction (Unit {0})
  initialize_pointer_field item =
      let field = current it in
      let ltype = pb_ltype field.type in
      if is_block ltype
      then assign 8 item 0
      else (if ltype == Ltype.submessage
          then assign field.data_size item 0 >> on_memory (defaults field.ptr item)
          else return tt)

  -- A singular field.
  unfoldable pub decode_single_pointer : FieldAction (Unit {0})
  decode_single_pointer t =
      let field = current it in
      let ltype = pb_ltype field.type in
      let duplicate = ltype == Ltype.submessage && not (load_pointer t.memory it.p_data == 0) in
      let allocated : FieldAction (Unit {0}) = do
        allocate_field realloc it.p_data field.data_size 1
        item ← pointer_at it.p_data
        initialize_pointer_field item
        dest ← pointer_at it.p_data
        func field dest
      in ((if duplicate then on_memory (release it) else return tt)
          >> ((if pb_htype field.type == Htype.oneof
                then assign 4 it.p_size field.tag
                else return tt)
              >> (if is_block ltype then func field it.p_data else allocated)))
        t

  -- Initializes and decodes the entry at index `size`.
  unfoldable pub decode_pointer_item : ℕ → FieldAction (Unit {0})
  decode_pointer_item size = do
    start ← pointer_at it.p_data
    let item = item_address (current it) start size
    initialize_pointer_field item
    func (current it) item

  -- Room for one more entry of a packed array; the result is the new `allocated_size`.
  unfoldable pub reserve : ℕ → FieldAction ℕ
  reserve allocated_size t =
      let field = current it in
      let grown : FieldAction ℕ = do
        size ← guessed_size allocated_size field.data_size t.stream.bytes_left
        allocate_field realloc it.p_data field.data_size size
        return size
      in if ltb allocated_size (load_size t.memory it.p_size + 1)
        then grown t
        else (ok allocated_size, t)

  -- The loop over a packed array, on the substream; the result is false if there are too many
  -- entries.
  unfoldable pub packed_pointers : ℕ → ℕ → FieldAction Bool
  packed_pointers zero allocated_size t = exhausted t
  packed_pointers (suc rounds) allocated_size t =
      let round : FieldAction Bool = do
        allocated ← reserve allocated_size
        size ← λ t'. (ok (load_size t'.memory it.p_size), t')
        decode_pointer_item size
        λ t'.
            let more = (count_item it.p_size >> packed_pointers rounds allocated) t' in
            if load_size t'.memory it.p_size == pb_size_max then (ok false, t') else more
      in let more = round t in if t.stream.bytes_left == 0 then (ok true, t) else more

  -- What follows the loop, on the stream itself. The message is overwritten by the one of the
  -- substream where that is closed.
  abbrev pub close_packed_pointers : Outcome Bool × Target → Istream → Outcome (Unit {0}) × Target
  close_packed_pointers (ok true, t) s = close_and_return t.stream (ok tt) (record t { stream = s })
  close_packed_pointers (ok false, t) s =
      close_and_return t.stream failed
        (record t { stream = record s { errmsg = some too_many_array_entries } })
  close_packed_pointers (failed, t) s = close_and_return t.stream failed (record t { stream = s })
  close_packed_pointers (fault, t) s = (fault, record t { stream = s })
  close_packed_pointers (out_of_fuel, t) s = (out_of_fuel, record t { stream = s })

  -- Each entry takes a byte of the substream, so a round for each byte and one more are enough.
  unfoldable pub decode_packed_pointers : FieldAction (Unit {0})
  decode_packed_pointers t =
      let size = load_size t.memory it.p_size in
      (on_stream pb_make_string_substream >>= λ sub t'.
      close_packed_pointers (packed_pointers (suc sub.bytes_left) size (record t' { stream = sub }))
        t'.stream)
        t

  -- One more entry of an array; `last` is `*size - 1` in 32 bits.
  unfoldable pub decode_repeated_pointer : FieldAction (Unit {0})
  decode_repeated_pointer t =
      let field = current it in
      let added : FieldAction (Unit {0}) = do
        count_item it.p_size
        size ← λ t'. (ok (load_size t'.memory it.p_size), t')
        allocate_field realloc it.p_data field.data_size size
        last ← λ t'. (ok (u32 (load_size t'.memory it.p_size + pb_size_max)), t')
        decode_pointer_item last
      in if load_size t.memory it.p_size == pb_size_max
        then refuse too_many_array_entries t
        else added t

  unfoldable pub decode_pointer_field : ℕ → FieldAction (Unit {0})
  decode_pointer_field wire_type =
      let htype = pb_htype (current it).type in
      let ltype = pb_ltype (current it).type in
      if htype == Htype.required || (htype == Htype.optional || htype == Htype.oneof)
      then decode_single_pointer
      else (if htype == Htype.repeated
          then (if wire_type == wt_string && leb ltype Ltype.last_packable
              then decode_packed_pointers
              else decode_repeated_pointer)
          else refuse invalid_field_type)
