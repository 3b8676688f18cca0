-- ===== src/Nanopb/Decode/EndingStatic.antt =====
-- ios/Pods/nanopb/pb_decode.c: `decode_static_field` comes to an end on every stream.
use spar_somnong.Common.{
  ℕ, zero, suc, ◌<◌, ◌≡◌, true, not, ◌&&◌, ltb, leb, ◌==◌, if◌then◌else◌, Outcome, ok, failed,
  return, ◌>>◌, arith,
}
use spar_somnong.Nanopb.Types.{wt_string, pb_ltype, pb_htype, array_overflow, invalid_field_type}
use spar_somnong.Nanopb.Ltype
use spar_somnong.Nanopb.Htype
use spar_somnong.Nanopb.Memory.{load_size}
use spar_somnong.Nanopb.Istream.{Istream}
use spar_somnong.Nanopb.Iter.{PbFieldIter, current}
use spar_somnong.Nanopb.Decode.Target.{Target, refuse, assign}
use spar_somnong.Nanopb.Decode.Numbers.{FieldDecoder}
use spar_somnong.Nanopb.Decode.Heap.{MemoryAction, on_memory}
use spar_somnong.Nanopb.Decode.Done.{Finishes}
use spar_somnong.Nanopb.Decode.Substream.{close_and_return, count_item}
use spar_somnong.Nanopb.Decode.Static.{
  decode_next_item, packed_entries, close_packed, decode_packed, decode_item, init_member,
  decode_static_field,
}
use spar_somnong.Nanopb.Decode.Advances.{
  Advances, Advances-refuse, Advances-return, Advances-weaken, Advances-if, Advances-either,
  Advances-on_memory, Advances-bind, Advances-assign,
}
use spar_somnong.Nanopb.Decode.Ending.{
  Ending, Ending-seq, Ending-if, Ending-when, and-true, close_and_return-Ending, ok-Ending,
  failed-Ending, with_substream-Advances, Decodes, count_item-Ending,
}

module _ (func : FieldDecoder) (it : PbFieldIter) (decodes : Decodes func (current it)) where
  packed_entries-Ending :
      leb (pb_ltype (current it).type) Ltype.last_packable ≡ true
      → (rounds : ℕ) (t : Target) → t.stream.bytes_left < rounds
      → Advances 0 t (packed_entries func it rounds t)
  unfolding packed_entries decode_next_item
  packed_entries-Ending small zero t lt = absurd (omega arith)
  packed_entries-Ending small (suc rounds) t lt =
      Advances-either
        (ltb 0 t.stream.bytes_left && ltb (load_size t.memory it.p_size) (current it).array_size) _
        (ok tt, t)
        (Advances-weaken 1 0 t _ (omega arith) (
          Advances-bind (decode_next_item func it)
            (λ _. count_item it.p_size >> packed_entries func it rounds) 1 t
            (decodes.takes small _ t)
            (λ a u le.
              Advances-bind (count_item it.p_size) (λ _. packed_entries func it rounds) 0 u
                (count_item-Ending it.p_size u)
                (λ b v le'. packed_entries-Ending small rounds v (omega arith)))))
        (Advances-return tt t)

  close_packed-Ending :
      (status : Outcome (Unit {0})) (sub : Istream)
      → ((t : Target) → Advances 0 t (status, t))
      → Ending (close_packed func it status sub)
  unfolding close_packed
  close_packed-Ending status sub h t =
      Advances-if (not (sub.bytes_left == 0)) (refuse array_overflow) (close_and_return sub status)
        (Advances-refuse 0 t array_overflow) (close_and_return-Ending sub status h t)

  decode_packed-Ending :
      leb (pb_ltype (current it).type) Ltype.last_packable ≡ true → Ending (decode_packed func it)
  unfolding decode_packed
  decode_packed-Ending small t = Advances-weaken 1 0 t _ (omega arith) (
      with_substream-Advances (λ u. packed_entries func it (suc u.stream.bytes_left) u)
        (close_packed func it) t
        (λ u. packed_entries-Ending small (suc u.stream.bytes_left) u (omega arith))
        (λ sub. close_packed-Ending (ok tt) sub ok-Ending)
        (λ sub. close_packed-Ending failed sub failed-Ending))

  decode_item-Ending : Ending (decode_item func it)
  unfolding decode_item
  decode_item-Ending t =
      Advances-bind (count_item it.p_size) _ 0 t (count_item-Ending it.p_size t) (λ a u le.
        Advances-if (leb (current it).array_size (load_size t.memory it.p_size))
          (refuse array_overflow) (func (current it) _) (Advances-refuse 0 u array_overflow)
          (decodes.ending _ u))

  init_member-Ending :
      (defaults : ℕ → ℕ → MemoryAction (Unit {0}))
      → ((pb_ltype (current it).type == Ltype.submessage) ≡ true
          → Finishes (defaults (current it).ptr it.p_data))
      → Ending (init_member func it defaults)
  unfolding init_member
  init_member-Ending defaults h =
      let field = current it in
      Ending-when (pb_ltype field.type == Ltype.submessage)
        (assign field.data_size it.p_data 0 >> on_memory (defaults field.ptr it.p_data)) (return tt)
        (λ e.
          Ending-seq (assign field.data_size it.p_data 0) (on_memory (defaults field.ptr it.p_data))
            (Advances-assign field.data_size it.p_data 0)
            (λ u. Advances-on_memory (defaults field.ptr it.p_data) u (h e)))
        (λ n. Advances-return tt)

  pub decode_static_field-Ending :
      (defaults : ℕ → ℕ → MemoryAction (Unit {0})) (wire_type : ℕ)
      → ((pb_ltype (current it).type == Ltype.submessage) ≡ true
          → Finishes (defaults (current it).ptr it.p_data))
      → Ending (decode_static_field func it defaults wire_type)
  unfolding decode_static_field
  decode_static_field-Ending defaults wire_type h =
      let field = current it in
      let htype = pb_htype field.type in
      let flagged = not (it.p_size == it.p_data) in
      let packable = leb (pb_ltype field.type) Ltype.last_packable in
      let func_ends = decodes.ending it.p_data in
      Ending-if (htype == Htype.required) (func field it.p_data) _ func_ends (
        Ending-if (htype == Htype.optional)
          ((if flagged then assign 1 it.p_size 1 else return tt) >> func field it.p_data) _
          (Ending-seq (if flagged then assign 1 it.p_size 1 else return tt) (func field it.p_data)
            (Ending-if flagged (assign 1 it.p_size 1) (return tt) (Advances-assign 1 it.p_size 1)
              (Advances-return tt))
            func_ends)
          (Ending-if (htype == Htype.repeated)
            (if wire_type == wt_string && packable
              then decode_packed func it
              else decode_item func it)
            _
            (Ending-when (wire_type == wt_string && packable) (decode_packed func it)
              (decode_item func it)
              (λ e. decode_packed-Ending (and-true (wire_type == wt_string) packable e))
              (λ n. decode_item-Ending))
            (Ending-if (htype == Htype.oneof)
              (assign 4 it.p_size field.tag
                >> (init_member func it defaults >> func field it.p_data))
              (refuse invalid_field_type)
              (Ending-seq (assign 4 it.p_size field.tag)
                (init_member func it defaults >> func field it.p_data)
                (Advances-assign 4 it.p_size field.tag)
                (Ending-seq (init_member func it defaults) (func field it.p_data)
                  (init_member-Ending defaults h) func_ends))
              (λ t. Advances-refuse 0 t invalid_field_type))))
