-- ===== src/Nanopb/Decode/EndingPointer.antt =====
-- ios/Pods/nanopb/pb_decode.c: `decode_pointer_field` comes to an end on every stream.
use spar_somnong.Common.{
  ℕ, zero, suc, ◌+◌, ◌<◌, ◌≡◌, refl, Bool, true, false, not, ◌&&◌, ◌||◌, some, ltb, leb, ◌==◌,
  if◌then◌else◌, Outcome, ok, failed, fault, return, ◌>>=◌, ◌>>◌, arith,
}
use spar_somnong.Nanopb.Types.{
  u32, wt_string, pb_size_max, pb_ltype, pb_htype, too_many_array_entries, invalid_field_type,
}
use spar_somnong.Nanopb.Ltype
use spar_somnong.Nanopb.Htype
use spar_somnong.Nanopb.Memory.{load_pointer, load_size}
use spar_somnong.Nanopb.Istream.{Istream}
use spar_somnong.Nanopb.Istream.ProgressSubstream.{pb_make_string_substream-Progress}
use spar_somnong.Nanopb.Istream.Values.{pb_make_string_substream}
use spar_somnong.Nanopb.Iter.{PbFieldIter, current}
use spar_somnong.Nanopb.Decode.Target.{Target, on_stream, refuse, assign}
use spar_somnong.Nanopb.Decode.Allocate.{Realloc, allocate_field}
use spar_somnong.Nanopb.Decode.Numbers.{FieldDecoder}
use spar_somnong.Nanopb.Decode.Blocks.{pointer_at}
use spar_somnong.Nanopb.Decode.Heap.{MemoryAction, on_memory}
use spar_somnong.Nanopb.Decode.Done.{Finishes}
use spar_somnong.Nanopb.Decode.Substream.{item_address, count_item}
use spar_somnong.Nanopb.Decode.Pointer.{
  is_block, guessed_size, initialize_pointer_field, decode_single_pointer, decode_pointer_item,
  reserve, packed_pointers, close_packed_pointers, decode_packed_pointers, decode_repeated_pointer,
  decode_pointer_field,
}
use spar_somnong.Nanopb.Decode.Advances.{
  Advances, went_on, refused, broke, Advances-refuse, Advances-return, Advances-fault,
  Advances-later, Advances-weaken, Advances-either, Advances-on_stream, Advances-on_memory,
  Advances-bind, Advances-after, Advances-assign,
}
use spar_somnong.Nanopb.Decode.AdvancesValues.{allocate_field-Advances}
use spar_somnong.Nanopb.Decode.Ending.{
  Ending, Ending-seq, Ending-if, Ending-when, and-true, close_and_return-Ending, ok-Ending,
  failed-Ending, Decodes, count_item-Ending,
}

guessed_size-Ending : (a d n : ℕ) → Ending (guessed_size a d n)
guessed_size-Ending a d n t =
    Advances-either (d == 0) (fault, t) (ok _, t) (Advances-fault 0 t) (Advances-return _ t)

module _ (realloc : Realloc) (defaults : ℕ → ℕ → MemoryAction (Unit {0}))
    (release : PbFieldIter → MemoryAction (Unit {0})) (func : FieldDecoder) (it : PbFieldIter)
    (decodes : Decodes func (current it))
    (initial : (pb_ltype (current it).type == Ltype.submessage) ≡ true
      → (dest : ℕ) → Finishes (defaults (current it).ptr dest))
    (releases : Finishes (release it)) where
  initialize_pointer_field-Ending :
      (item : ℕ) → Ending (initialize_pointer_field realloc defaults release func it item)
  unfolding initialize_pointer_field
  initialize_pointer_field-Ending item =
      let field = current it in
      let ltype = pb_ltype field.type in
      Ending-if (is_block ltype) (assign 8 item 0) _ (Advances-assign 8 item 0) (
        Ending-when (ltype == Ltype.submessage)
          (assign field.data_size item 0 >> on_memory (defaults field.ptr item)) (return tt)
          (λ e.
            Ending-seq (assign field.data_size item 0) (on_memory (defaults field.ptr item))
              (Advances-assign field.data_size item 0)
              (λ t. Advances-on_memory (defaults field.ptr item) t (initial e item)))
          (λ n. Advances-return tt))

  decode_single_pointer-Ending : Ending (decode_single_pointer realloc defaults release func it)
  unfolding decode_single_pointer
  decode_single_pointer-Ending t =
      let field = current it in
      let ltype = pb_ltype field.type in
      let duplicate = ltype == Ltype.submessage && not (load_pointer t.memory it.p_data == 0) in
      let initialize = initialize_pointer_field realloc defaults release func it in
      let union = pb_htype field.type == Htype.oneof in
      Ending-seq (if duplicate then on_memory (release it) else return tt) _
        (Ending-if duplicate (on_memory (release it)) (return tt)
          (λ u. Advances-on_memory (release it) u releases) (Advances-return tt))
        (Ending-seq (if union then assign 4 it.p_size field.tag else return tt) _
          (Ending-if union (assign 4 it.p_size field.tag) (return tt)
            (Advances-assign 4 it.p_size field.tag) (Advances-return tt))
          (Ending-if (is_block ltype) (func field it.p_data) _ (decodes.ending it.p_data) (
            Ending-seq (allocate_field realloc it.p_data field.data_size 1) _
              (allocate_field-Advances realloc it.p_data field.data_size 1)
              (λ u. Advances-bind (pointer_at it.p_data) _ 0 u (Advances-return _ u) (λ item v le.
                Advances-bind (initialize item) (λ _. pointer_at it.p_data >>= func field) 0 v
                  (initialize_pointer_field-Ending item v)
                  (λ a w le'.
                    Advances-bind (pointer_at it.p_data) (func field) 0 w (Advances-return _ w)
                      (λ dest x le''. decodes.ending dest x)))))))
        t

  -- An entry takes what its decoder takes.
  decode_pointer_item-Advances :
      (n size : ℕ) (t : Target)
      → ((dest : ℕ) (u : Target) → Advances n u (func (current it) dest u))
      → Advances n t (decode_pointer_item realloc defaults release func it size t)
  unfolding decode_pointer_item
  decode_pointer_item-Advances n size t h =
      Advances-after (pointer_at it.p_data) _ n t (Advances-return _ t) (λ start u le.
        Advances-after
          (initialize_pointer_field realloc defaults release func it
            (item_address (current it) start size))
          (λ _. func (current it) (item_address (current it) start size)) n u
          (initialize_pointer_field-Ending _ u) (λ a v le'. h _ v))

  reserve-Ending : (allocated : ℕ) → Ending (reserve realloc defaults release func it allocated)
  unfolding reserve
  reserve-Ending allocated t =
      let field = current it in
      Advances-either (ltb allocated (load_size t.memory it.p_size + 1)) _ (ok allocated, t)
        (Advances-bind (guessed_size allocated field.data_size t.stream.bytes_left) _ 0 t
          (guessed_size-Ending allocated field.data_size t.stream.bytes_left t)
          (λ size u le.
            Advances-bind (allocate_field realloc it.p_data field.data_size size) (λ _. return size)
              0 u (allocate_field-Advances realloc it.p_data field.data_size size u)
              (λ a v le'. Advances-return size v)))
        (Advances-return allocated t)

  packed_pointers-Ending :
      leb (pb_ltype (current it).type) Ltype.last_packable ≡ true
      → (rounds allocated : ℕ) (t : Target) → t.stream.bytes_left < rounds
      → Advances 0 t (packed_pointers realloc defaults release func it rounds allocated t)
  unfolding packed_pointers
  packed_pointers-Ending small zero allocated t lt = absurd (omega arith)
  packed_pointers-Ending small (suc rounds) allocated t lt =
      Advances-either (t.stream.bytes_left == 0) (ok true, t) _ (Advances-return true t)
        (Advances-bind (reserve realloc defaults release func it allocated) _ 0 t
          (reserve-Ending allocated t)
          (λ allocated' u le.
            Advances-bind (λ u'. (ok (load_size u'.memory it.p_size), u')) _ 0 u
              (Advances-return _ u)
              (λ size v le'. Advances-weaken 1 0 v _ (omega arith) (
                Advances-bind (decode_pointer_item realloc defaults release func it size) _ 1 v
                  (decode_pointer_item-Advances 1 size v (decodes.takes small))
                  (λ a w le''.
                    Advances-either (load_size w.memory it.p_size == pb_size_max) (ok false, w) _
                      (Advances-return false w)
                      (Advances-bind (count_item it.p_size)
                        (λ _. packed_pointers realloc defaults release func it rounds allocated') 0
                        w (count_item-Ending it.p_size w)
                        (λ b x le'''.
                          packed_pointers-Ending small rounds allocated' x (omega arith))))))))

  close_packed_pointers-Advances :
      (r : Outcome Bool × Target) (s : Istream) (u t : Target)
      → t.stream ≡ s
      → Advances 0 u r
      → Advances 0 t (close_packed_pointers realloc defaults release func it r s)
  close_packed_pointers-Advances r s u t same (went_on true v h e) = rw e (
      Advances-later 0 0 t (record v { stream = s }) _ (rw same (omega arith)) (omega arith)
        (close_and_return-Ending v.stream (ok tt) ok-Ending (record v { stream = s })))
  close_packed_pointers-Advances r s u t same (went_on false v h e) =
      let full : Istream = record s { errmsg = some too_many_array_entries } in
      rw e (
        Advances-later 0 0 t (record v { stream = full }) _ (rw same (omega arith)) (omega arith)
          (close_and_return-Ending v.stream failed failed-Ending (record v { stream = full })))
  close_packed_pointers-Advances r s u t same (refused v h e) = rw e (
      Advances-later 0 0 t (record v { stream = s }) _ (rw same (omega arith)) (omega arith)
        (close_and_return-Ending v.stream failed failed-Ending (record v { stream = s })))
  close_packed_pointers-Advances r s u t same (broke v h e) =
      rw e (broke (record v { stream = s }) (rw same (omega arith)) refl)

  decode_packed_pointers-Ending :
      leb (pb_ltype (current it).type) Ltype.last_packable ≡ true
      → Ending (decode_packed_pointers realloc defaults release func it)
  unfolding decode_packed_pointers
  decode_packed_pointers-Ending small t =
      let size = load_size t.memory it.p_size in
      Advances-weaken 1 0 t _ (omega arith) (
        Advances-bind (on_stream pb_make_string_substream) _ 1 t
          (Advances-on_stream pb_make_string_substream 1 t
            (pb_make_string_substream-Progress t.stream))
          (λ sub u le.
            close_packed_pointers-Advances
              (packed_pointers realloc defaults release func it (suc sub.bytes_left) size
                (record u { stream = sub }))
              u.stream (record u { stream = sub }) u refl
              (packed_pointers-Ending small (suc sub.bytes_left) size (record u { stream = sub })
                (omega arith))))

  decode_repeated_pointer-Ending : Ending (decode_repeated_pointer realloc defaults release func it)
  unfolding decode_repeated_pointer
  decode_repeated_pointer-Ending t =
      Advances-either (load_size t.memory it.p_size == pb_size_max)
        (refuse too_many_array_entries t) _ (Advances-refuse 0 t too_many_array_entries)
        (Advances-bind (count_item it.p_size) _ 0 t (count_item-Ending it.p_size t) (λ a u le.
          Advances-bind (λ u'. (ok (load_size u'.memory it.p_size), u')) _ 0 u (Advances-return _ u)
            (λ size v le'.
              Advances-bind (allocate_field realloc it.p_data (current it).data_size size) _ 0 v
                (allocate_field-Advances realloc it.p_data (current it).data_size size v)
                (λ b w le''.
                  Advances-bind (λ w'. (ok (u32 (load_size w'.memory it.p_size + pb_size_max)), w'))
                    (decode_pointer_item realloc defaults release func it) 0 w (Advances-return _ w)
                    (λ last x le'''. decode_pointer_item-Advances 0 last x decodes.ending)))))

  pub decode_pointer_field-Ending :
      (wire_type : ℕ) → Ending (decode_pointer_field realloc defaults release func it wire_type)
  unfolding decode_pointer_field
  decode_pointer_field-Ending wire_type =
      let htype = pb_htype (current it).type in
      let packable = leb (pb_ltype (current it).type) Ltype.last_packable in
      Ending-if (htype == Htype.required || (htype == Htype.optional || htype == Htype.oneof))
        (decode_single_pointer realloc defaults release func it) _ decode_single_pointer-Ending
        (Ending-if (htype == Htype.repeated) _ (refuse invalid_field_type)
          (Ending-when (wire_type == wt_string && packable)
            (decode_packed_pointers realloc defaults release func it)
            (decode_repeated_pointer realloc defaults release func it)
            (λ e. decode_packed_pointers-Ending (and-true (wire_type == wt_string) packable e))
            (λ n. decode_repeated_pointer-Ending))
          (λ t. Advances-refuse 0 t invalid_field_type))
