-- ===== src/Nanopb/Decode/Initial.antt =====
-- ios/Pods/nanopb/pb_decode.c: the default values of a message before it is decoded.
use spar_somnong.Common.{
  ℕ, zero, suc, ◌+◌, not, ◌&&◌, ◌||◌, ◌==◌, if◌then◌else◌, ◌>>=◌, ◌>>◌, return, exhausted,
}
use spar_somnong.Nanopb.Types.{pb_ltype, pb_htype, pb_atype}
use spar_somnong.Nanopb.Ltype
use spar_somnong.Nanopb.Htype
use spar_somnong.Nanopb.Atype
use spar_somnong.Nanopb.Memory.{Program, load_pointer, extension_found}
use spar_somnong.Nanopb.Iter.{PbFieldIter, current}
use spar_somnong.Nanopb.Decode.Heap.{
  MemoryAction, reading, put_number, copy, for_fields, each_extension, iter_from_extension,
}

-- `set` is `pb_field_set_to_default` for the fields inside of this one, `rounds` a bound on the
-- length of a list of extensions.
module _ (program : Program) (set : PbFieldIter → MemoryAction (Unit {0})) where
  unfoldable pub set_extension : ℕ → MemoryAction (Unit {0})
  set_extension extension = do
    put_number 1 (extension + extension_found) 0
    it ← reading (iter_from_extension program extension)
    set it

  unfoldable pub init_data : PbFieldIter → MemoryAction (Unit {0})
  init_data it =
      let field = current it in
      if pb_ltype field.type == Ltype.submessage
      then for_fields set (program.fields_at field.ptr) it.p_data
      else (if not (field.ptr == 0)
          then copy it.p_data field.ptr field.data_size
          else put_number field.data_size it.p_data 0)

  unfoldable pub set_static : PbFieldIter → MemoryAction (Unit {0})
  set_static it =
      let htype = pb_htype (current it).type in
      if htype == Htype.optional && not (it.p_size == it.p_data)
      then (put_number 1 it.p_size 0 >> init_data it)
      else (if htype == Htype.repeated || htype == Htype.oneof
          then put_number 4 it.p_size 0
          else init_data it)

  unfoldable pub set_pointer : PbFieldIter → MemoryAction (Unit {0})
  set_pointer it =
      let htype = pb_htype (current it).type in
      put_number 8 it.p_data 0
      >> (if htype == Htype.repeated || htype == Htype.oneof
          then put_number 4 it.p_size 0
          else return tt)

  unfoldable pub set_field : ℕ → PbFieldIter → MemoryAction (Unit {0})
  set_field rounds it =
      let field = current it in
      let atype = pb_atype field.type in
      let extensions : MemoryAction (Unit {0}) =
        reading (λ mem. load_pointer mem it.p_data) >>= each_extension set_extension rounds in
      if pb_ltype field.type == Ltype.extension
      then extensions
      else (if atype == Atype.static
          then set_static it
          else (if atype == Atype.pointer then set_pointer it else return tt))

module _ (program : Program) where
  -- The fuel bounds the nesting of messages and the number of extensions of one.
  unfoldable pub pb_field_set_to_default : ℕ → PbFieldIter → MemoryAction (Unit {0})
  pb_field_set_to_default zero it = exhausted
  pb_field_set_to_default (suc fuel) it = set_field program (pb_field_set_to_default fuel) fuel it

  unfoldable pub pb_message_set_to_defaults : ℕ → ℕ → ℕ → MemoryAction (Unit {0})
  pb_message_set_to_defaults fuel fields dest_struct =
      for_fields (pb_field_set_to_default fuel) (program.fields_at fields) dest_struct
