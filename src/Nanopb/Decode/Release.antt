-- ===== src/Nanopb/Decode/Release.antt =====
-- ios/Pods/nanopb/pb_decode.c: releasing what a message has allocated.
use spar_somnong.Common.{
  ℕ, zero, suc, ◌+◌, not, ◌&&◌, ◌||◌, ltb, ◌==◌, if◌then◌else◌, ok, ◌>>=◌, ◌>>◌, return, exhausted,
}
use spar_somnong.Nanopb.Types.{u64, pb_ltype, pb_htype, pb_atype}
use spar_somnong.Nanopb.Ltype
use spar_somnong.Nanopb.Htype
use spar_somnong.Nanopb.Atype
use spar_somnong.Nanopb.Memory.{Memory, Program, load_pointer, load_size}
use spar_somnong.Nanopb.Iter.{PbFieldIter, current}
use spar_somnong.Nanopb.Decode.Heap.{
  MemoryAction, reading, put_number, for_fields, each_extension, iter_from_extension,
}

-- The C library's `free`: the memory and the pointer, to the memory afterwards.
abbrev pub Free : Type 0
Free = Memory → ℕ → Memory

-- `pb_free(*p)`
abbrev pub free_at : Free → ℕ → MemoryAction (Unit {0})
free_at free p mem = (ok tt, free mem (load_pointer mem p))

-- `while (count--) { act(p); p += data_size; }`
unfoldable pub each_item : (ℕ → MemoryAction (Unit {0})) → ℕ → ℕ → ℕ → MemoryAction (Unit {0})
each_item act zero data_size p = return tt
each_item act (suc count) data_size p = act p >> each_item act count data_size (u64 (p + data_size))

-- `pb_free(*p); *p = NULL;`
unfoldable pub free_entry : Free → ℕ → MemoryAction (Unit {0})
free_entry free p = free_at free p >> put_number 8 p 0

-- The number of submessages in the field.
unfoldable pub release_count : PbFieldIter → Memory → ℕ
release_count it mem =
    let field = current it in
    let static = pb_atype field.type == Atype.static in
    let count : ℕ =
      if static && it.p_size == it.p_data then field.array_size else load_size mem it.p_size in
    if pb_htype field.type == Htype.repeated
    then (if static && ltb field.array_size count then field.array_size else count)
    else 1

-- The end of the release of a field of pointer type.
unfoldable pub release_pointer : Free → PbFieldIter → MemoryAction (Unit {0})
release_pointer free it =
    let field = current it in
    let ltype = pb_ltype field.type in
    let repeated = pb_htype field.type == Htype.repeated in
    let entries : MemoryAction (Unit {0}) = do
      p ← reading (λ mem. load_pointer mem it.p_data)
      count ← reading (λ mem. load_size mem it.p_size)
      each_item (free_entry free) count 8 p
    in (if repeated && (ltype == Ltype.string || ltype == Ltype.bytes) then entries else return tt)
      >> ((if repeated then put_number 4 it.p_size 0 else return tt) >> free_entry free it.p_data)

-- `release` is `pb_release_single_field` for the fields inside of this one, `rounds` a bound on the
-- length of a list of extensions.
module _ (program : Program) (free : Free) (release : PbFieldIter → MemoryAction (Unit {0})) where
  unfoldable pub release_submessages : PbFieldIter → MemoryAction (Unit {0})
  release_submessages it = do
    let field = current it
    let fields = program.fields_at field.ptr
    item ← reading λ mem.
        if pb_atype field.type == Atype.pointer then load_pointer mem it.p_data else it.p_data
    count ← reading (release_count it)
    if item == 0
        then return tt
        else each_item (λ p. if p == 0 then return tt else for_fields release fields p) count
            field.data_size item

  -- What the field contains.
  unfoldable pub release_inside : ℕ → PbFieldIter → MemoryAction (Unit {0})
  release_inside rounds it =
      let ltype = pb_ltype (current it).type in
      let extensions : MemoryAction (Unit {0}) =
        reading (λ mem. load_pointer mem it.p_data)
        >>= each_extension
            (λ extension. reading (iter_from_extension program extension) >>= release) rounds in
      if ltype == Ltype.extension
      then extensions
      else (if ltype == Ltype.submessage then release_submessages it else return tt)

  unfoldable pub release_field : ℕ → PbFieldIter → MemoryAction (Unit {0})
  release_field rounds it =
      let field = current it in
      reading (λ mem. load_size mem it.p_size) >>= λ which.
      if pb_htype field.type == Htype.oneof && not (which == field.tag)
      then return tt
      else (release_inside rounds it
          >> (if pb_atype field.type == Atype.pointer then release_pointer free it else return tt))

module _ (program : Program) (free : Free) where
  -- The fuel bounds the nesting of messages and the number of extensions of one.
  unfoldable pub pb_release_single_field : ℕ → PbFieldIter → MemoryAction (Unit {0})
  pb_release_single_field zero it = exhausted
  pb_release_single_field (suc fuel) it =
      release_field program free (pb_release_single_field fuel) fuel it

  unfoldable pub pb_release : ℕ → ℕ → ℕ → MemoryAction (Unit {0})
  pb_release fuel fields dest_struct =
      if dest_struct == 0
      then return tt
      else for_fields (pb_release_single_field fuel) (program.fields_at fields) dest_struct
