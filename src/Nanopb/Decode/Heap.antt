-- ===== src/Nanopb/Decode/Heap.antt =====
-- ios/Pods/nanopb/pb_decode.c: what the code does to the memory alone, without the stream: stores,
-- and the loops over the fields of a message and over a list of extensions.
use spar_somnong.Common.{
  ℕ, zero, suc, ◌+◌, length, List, ◌==◌, if◌then◌else◌, Outcome, ok, Action, ◌>>=◌, ◌>>◌, return,
  exhausted,
}
use spar_somnong.Nanopb.Types.{PbField, pb_atype}
use spar_somnong.Nanopb.Atype
use spar_somnong.Nanopb.Memory.{
  Memory, Program, load_pointer, load_bytes, extension_dest, extension_next, extension_found,
  extension_type_arg,
}
use spar_somnong.Nanopb.Iter.{PbFieldIter, field_at, pb_field_iter_begin, pb_field_iter_next}
use spar_somnong.Nanopb.Decode.Target.{FieldAction, Target, store, store_bytes}

abbrev pub MemoryAction {ℓ} : Type ℓ → Type ℓ
MemoryAction A = Action Memory A

-- A value that is read from the memory.
abbrev pub reading {ℓ} : {A : Type ℓ} → (Memory → A) → MemoryAction A
reading f mem = (ok (f mem), mem)

-- The low bytes of `v` to the `n` bytes from `a` on.
abbrev pub put_number : ℕ → ℕ → ℕ → MemoryAction (Unit {0})
put_number n a v mem = (ok tt, store mem n a v)

-- `memcpy(to, from, n)`
abbrev pub copy : ℕ → ℕ → ℕ → MemoryAction (Unit {0})
copy to from n mem = (ok tt, store_bytes mem to (load_bytes mem n from))

abbrev pub with_stream {ℓ} : {A : Type ℓ} → Target → Outcome A × Memory → Outcome A × Target
with_stream t (o, mem) = (o, record t { memory = mem })

-- A call that leaves the stream alone.
abbrev pub on_memory {ℓ} : {A : Type ℓ} → MemoryAction A → FieldAction A
on_memory act t = with_stream t (act t.memory)

-- `do act(&iter); while (pb_field_iter_next(&iter));`
unfoldable pub each_field :
    (PbFieldIter → MemoryAction (Unit {0})) → ℕ → PbFieldIter → MemoryAction (Unit {0})
each_field act zero it = exhausted
each_field act (suc rounds) it =
    let next = pb_field_iter_next it in
    let more = each_field act rounds next.1 in act it >> (if next.0 then more else return tt)

-- The loop over all fields of a message, none for an empty message type.
unfoldable pub for_fields :
    (PbFieldIter → MemoryAction (Unit {0})) → List PbField → ℕ → MemoryAction (Unit {0})
for_fields act fields dest_struct =
    let begun = pb_field_iter_begin fields dest_struct in
    let loop = each_field act (length fields) begun.1 in if begun.0 then loop else return tt

-- `while (ext != NULL) { act(ext); ext = ext->next; }`; `rounds` bounds the length of the list.
unfoldable pub each_extension : (ℕ → MemoryAction (Unit {0})) → ℕ → ℕ → MemoryAction (Unit {0})
each_extension act zero extension = if extension == 0 then return tt else exhausted
each_extension act (suc rounds) extension =
    let more : MemoryAction (Unit {0}) =
      act extension
      >> (reading (λ mem. load_pointer mem (extension + extension_next))
          >>= each_extension act rounds) in
    if extension == 0 then return tt else more

module _ (program : Program) where
  -- The descriptor that an extension's type points to.
  unfoldable pub extension_fields : Memory → ℕ → List PbField
  extension_fields mem extension =
      program.fields_at (load_pointer mem (load_pointer mem extension + extension_type_arg))

  unfoldable pub iter_from_extension : ℕ → Memory → PbFieldIter
  iter_from_extension extension mem =
      let fields = extension_fields mem extension in
      let dest = load_pointer mem (extension + extension_dest) in
      let p_data : ℕ =
        if pb_atype (field_at fields 0).type == Atype.pointer
        then extension + extension_dest
        else dest in
      record (pb_field_iter_begin fields dest).1 {
        p_data = p_data;
        p_size = extension + extension_found;
      }
