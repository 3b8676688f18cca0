-- ===== src/Nanopb/Decode/Static.antt =====
-- ios/Pods/nanopb/pb_decode.c: `decode_static_field`.
use spar_somnong.Common.{
  ℕ, zero, suc, not, ◌&&◌, ltb, leb, ◌==◌, if◌then◌else◌, Outcome, ok, ◌>>◌, return, exhausted,
}
use spar_somnong.Nanopb.Types.{wt_string, pb_ltype, pb_htype, array_overflow, invalid_field_type}
use spar_somnong.Nanopb.Ltype
use spar_somnong.Nanopb.Htype
use spar_somnong.Nanopb.Memory.{load_size}
use spar_somnong.Nanopb.Istream.{Istream}
use spar_somnong.Nanopb.Iter.{PbFieldIter, current}
use spar_somnong.Nanopb.Decode.Target.{FieldAction, refuse, assign}
use spar_somnong.Nanopb.Decode.Numbers.{FieldDecoder}
use spar_somnong.Nanopb.Decode.Heap.{MemoryAction, on_memory}
use spar_somnong.Nanopb.Decode.Substream.{
  with_substream, close_and_return, item_address, count_item,
}

module _ (func : FieldDecoder) (it : PbFieldIter) where
  -- Where the next entry of the array goes.
  unfoldable pub decode_next_item : FieldAction (Unit {0})
  decode_next_item t =
      func (current it) (item_address (current it) it.p_data (load_size t.memory it.p_size)) t

  -- The loop over a packed array, on the substream.
  unfoldable pub packed_entries : ℕ → FieldAction (Unit {0})
  packed_entries zero t = exhausted t
  packed_entries (suc rounds) t =
      let more = (decode_next_item >> (count_item it.p_size >> packed_entries rounds)) t in
      if ltb 0 t.stream.bytes_left && ltb (load_size t.memory it.p_size) (current it).array_size
      then more
      else (ok tt, t)

  -- What follows the loop.
  unfoldable pub close_packed : Outcome (Unit {0}) → Istream → FieldAction (Unit {0})
  close_packed status sub =
      if not (sub.bytes_left == 0) then refuse array_overflow else close_and_return sub status

  -- Each entry takes a byte of the substream, so a round for each byte and one more are enough.
  unfoldable pub decode_packed : FieldAction (Unit {0})
  decode_packed = with_substream (λ t. packed_entries (suc t.stream.bytes_left) t) close_packed

  -- One entry of an array. The count goes up before the test for room.
  unfoldable pub decode_item : FieldAction (Unit {0})
  decode_item t =
      let size = load_size t.memory it.p_size in
      let item = item_address (current it) it.p_data size in
      let rest : FieldAction (Unit {0}) =
        if leb (current it).array_size size
        then refuse array_overflow
        else func (current it) item in
      (count_item it.p_size >> rest) t

  -- A submessage in a union is cleared and gets its default values. `defaults` is
  -- `pb_message_set_to_defaults`.
  unfoldable pub init_member : (ℕ → ℕ → MemoryAction (Unit {0})) → FieldAction (Unit {0})
  init_member defaults =
      let field = current it in
      if pb_ltype field.type == Ltype.submessage
      then assign field.data_size it.p_data 0 >> on_memory (defaults field.ptr it.p_data)
      else return tt

  unfoldable pub decode_static_field :
      (ℕ → ℕ → MemoryAction (Unit {0})) → ℕ → FieldAction (Unit {0})
  decode_static_field defaults wire_type =
      let field = current it in
      let htype = pb_htype field.type in
      let packable = leb (pb_ltype field.type) Ltype.last_packable in
      if htype == Htype.required
      then func field it.p_data
      else (if htype == Htype.optional
          then (if not (it.p_size == it.p_data) then assign 1 it.p_size 1 else return tt)
            >> func field it.p_data
          else (if htype == Htype.repeated
              then (if wire_type == wt_string && packable then decode_packed else decode_item)
              else (if htype == Htype.oneof
                  then assign 4 it.p_size field.tag
                    >> (init_member defaults >> func field it.p_data)
                  else refuse invalid_field_type)))
