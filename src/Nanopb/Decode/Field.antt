-- ===== src/Nanopb/Decode/Field.antt =====
-- ios/Pods/nanopb/pb_decode.c: fields of every allocation, the members of a union, and extensions.
use spar_somnong.Common.{
  ℕ, zero, suc, ◌+◌, Bool, true, false, not, ◌&&◌, length, ◌==◌, if◌then◌else◌, ok, fault, ◌>>=◌,
  ◌>>◌, return, exhausted,
}
use spar_somnong.Nanopb.Types.{
  pb_ltype, pb_htype, pb_atype, invalid_field_type, invalid_union_tag, iterator_error,
}
use spar_somnong.Nanopb.Ltype
use spar_somnong.Nanopb.Htype
use spar_somnong.Nanopb.Atype
use spar_somnong.Nanopb.Memory.{
  load_pointer, load_size, extension_next, extension_found, extension_type_decode,
}
use spar_somnong.Nanopb.Iter.{
  PbFieldIter, field_at, current, pb_field_iter_next, pb_field_iter_find,
}
use spar_somnong.Nanopb.Decode.Target.{FieldAction, refuse, assign}
use spar_somnong.Nanopb.Decode.Allocate.{Realloc}
use spar_somnong.Nanopb.Decode.Numbers.{
  FieldDecoder, pb_dec_varint, pb_dec_uvarint, pb_dec_svarint, pb_dec_fixed32, pb_dec_fixed64,
}
use spar_somnong.Nanopb.Decode.Blocks.{
  pointer_at, pb_dec_bytes, pb_dec_string, pb_dec_fixed_length_bytes,
}
use spar_somnong.Nanopb.Decode.Heap.{on_memory, extension_fields, iter_from_extension}
use spar_somnong.Nanopb.Decode.Initial.{pb_message_set_to_defaults}
use spar_somnong.Nanopb.Decode.Release.{pb_release_single_field}
use spar_somnong.Nanopb.Decode.Host.{Host}
use spar_somnong.Nanopb.Decode.Static.{decode_static_field}
use spar_somnong.Nanopb.Decode.Pointer.{decode_pointer_field}
use spar_somnong.Nanopb.Decode.Callback.{decode_callback_field}

-- PB_DECODERS; `submessage` is `pb_dec_submessage`. Extensions have a null entry, and nothing
-- stands behind the table.
unfoldable pub pb_decoders : Realloc → FieldDecoder → ℕ → FieldDecoder
pb_decoders realloc submessage ltype =
    if ltype == Ltype.varint
    then pb_dec_varint
    else (if ltype == Ltype.uvarint
        then pb_dec_uvarint
        else (if ltype == Ltype.svarint
            then pb_dec_svarint
            else (if ltype == Ltype.fixed32
                then pb_dec_fixed32
                else (if ltype == Ltype.fixed64
                    then pb_dec_fixed64
                    else (if ltype == Ltype.bytes
                        then pb_dec_bytes realloc
                        else (if ltype == Ltype.string
                            then pb_dec_string realloc
                            else (if ltype == Ltype.submessage
                                then submessage
                                else (if ltype == Ltype.fixed_length_bytes
                                    then pb_dec_fixed_length_bytes
                                    else (λ field dest t. (fault, t))))))))))

-- The search loop of `find_extension_field`, with the position where it began.
unfoldable pub find_extension_loop : ℕ → ℕ → PbFieldIter → Bool × PbFieldIter
find_extension_loop zero from it = (false, it)
find_extension_loop (suc rounds) from it =
    let it' = (pb_field_iter_next it).1 in
    let more = find_extension_loop rounds from it' in
    if pb_ltype (current it).type == Ltype.extension
    then (true, it)
    else (if it'.pos == from then (false, it') else more)

-- A search goes round the descriptor array once.
unfoldable pub find_extension_field : PbFieldIter → Bool × PbFieldIter
find_extension_field it = find_extension_loop (suc (length it.start)) it.pos it

-- `submessage` is `pb_dec_submessage`. The fuel bounds the nesting of messages and the number of
-- extensions of one.
module _ (host : Host) (submessage : FieldDecoder) (fuel : ℕ) where
  -- The result is the iterator, which the searches move.
  unfoldable pub pb_release_union_field : PbFieldIter → FieldAction PbFieldIter
  pb_release_union_field it t =
      let old_tag = load_size t.memory it.p_size in
      let new_tag = (current it).tag in
      let old = pb_field_iter_find it old_tag in
      let new = pb_field_iter_find old.1 new_tag in
      let restored : FieldAction PbFieldIter =
        if not new.0 then refuse iterator_error else return new.1 in
      let released = on_memory (pb_release_single_field host.program host.free fuel old.1) in
      if old_tag == 0
      then (ok it, t)
      else (if old_tag == new_tag
          then (ok it, t)
          else (if not old.0 then refuse invalid_union_tag t else (released >> restored) t))

  unfoldable pub decode_by_allocation : ℕ → PbFieldIter → FieldAction (Unit {0})
  decode_by_allocation wire_type it =
      let atype = pb_atype (current it).type in
      let func = pb_decoders host.realloc submessage (pb_ltype (current it).type) in
      let defaults = pb_message_set_to_defaults host.program fuel in
      let release = pb_release_single_field host.program host.free fuel in
      if atype == Atype.static
      then decode_static_field func it defaults wire_type
      else (if atype == Atype.pointer
          then decode_pointer_field host.realloc defaults release func it wire_type
          else (if atype == Atype.callback
              then decode_callback_field host wire_type it
              else refuse invalid_field_type))

  -- The result is the iterator.
  unfoldable pub decode_field : ℕ → PbFieldIter → FieldAction PbFieldIter
  decode_field wire_type it = do
    it' ← if pb_htype (current it).type == Htype.oneof then pb_release_union_field it else return it
    decode_by_allocation wire_type it'
    return it'

  unfoldable pub default_extension_decoder : ℕ → ℕ → ℕ → FieldAction (Unit {0})
  default_extension_decoder extension tag wire_type t =
      let field = field_at (extension_fields host.program t.memory extension) 0 in
      let it = iter_from_extension host.program extension t.memory in
      let decode : FieldAction (Unit {0}) = do
        assign 1 (extension + extension_found) 1
        _ ← decode_field wire_type it
        return tt
      in if not (field.tag == tag) then (ok tt, t) else decode t

  -- The handler of one extension.
  unfoldable pub decode_one_extension : ℕ → ℕ → ℕ → FieldAction (Unit {0})
  decode_one_extension extension tag wire_type t =
      let type = load_pointer t.memory extension in
      let function = load_pointer t.memory (type + extension_type_decode) in
      if not (function == 0)
      then host.decode_extension function extension tag wire_type t
      else default_extension_decoder extension tag wire_type t

  -- The linked list of extensions, until one takes bytes off the `left` of the stream.
  unfoldable pub decode_extension_loop : ℕ → ℕ → ℕ → ℕ → ℕ → FieldAction (Unit {0})
  decode_extension_loop zero left extension tag wire_type t =
      if not (extension == 0) && left == t.stream.bytes_left then (exhausted t) else (ok tt, t)
  decode_extension_loop (suc rounds) left extension tag wire_type t =
      let more : FieldAction (Unit {0}) = do
        decode_one_extension extension tag wire_type
        next ← pointer_at (extension + extension_next)
        decode_extension_loop rounds left next tag wire_type
      in if not (extension == 0) && left == t.stream.bytes_left then more t else (ok tt, t)

  unfoldable pub decode_extension : ℕ → ℕ → PbFieldIter → FieldAction (Unit {0})
  decode_extension tag wire_type it t =
      decode_extension_loop fuel t.stream.bytes_left (load_pointer t.memory it.p_data) tag wire_type
        t
