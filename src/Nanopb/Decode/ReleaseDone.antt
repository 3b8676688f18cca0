-- ===== src/Nanopb/Decode/ReleaseDone.antt =====
-- ios/Pods/nanopb/pb_decode.c: releasing comes to an end for message types that do not contain
-- themselves.
use spar_somnong.Common.{
  ℕ, zero, suc, ◌<◌, refl, Bool-cases, inl, inr, not, ◌&&◌, ◌||◌, ◌==◌, if◌then◌else◌, All, ◌>>◌,
  return, arith,
}
use spar_somnong.Nanopb.Types.{pb_ltype, pb_htype, pb_atype}
use spar_somnong.Nanopb.Ltype
use spar_somnong.Nanopb.Htype
use spar_somnong.Nanopb.Atype
use spar_somnong.Nanopb.Memory.{Program, load_pointer, load_size}
use spar_somnong.Nanopb.Iter.{PbFieldIter, current}
use spar_somnong.Nanopb.Iter.Search.{IsTagged}
use spar_somnong.Nanopb.Encode.EndsMessage.{IsBelow}
use spar_somnong.Nanopb.Decode.Heap.{MemoryAction, reading, put_number, for_fields}
use spar_somnong.Nanopb.Decode.Release.{
  Free, free_at, each_item, free_entry, release_count, release_pointer, release_submessages,
  release_inside, release_field, pb_release_single_field, pb_release,
}
use spar_somnong.Nanopb.Decode.Done.{
  done, Finishes, Finishes-return, Finishes-put_number, Finishes-bind, Finishes-seq, Finishes-if,
  each_item-Finishes, Handles, message-Finishes,
}

free_entry-Finishes : (free : Free) (p : ℕ) → Finishes (free_entry free p)
unfolding free_entry
free_entry-Finishes free p =
    Finishes-seq (free_at free p) (put_number 8 p 0) (λ mem. done tt _ refl)
      (Finishes-put_number _ _ _)

release_pointer-Finishes : (free : Free) (it : PbFieldIter) → Finishes (release_pointer free it)
unfolding release_pointer
release_pointer-Finishes free it =
    let ltype = pb_ltype (current it).type in
    let repeated = pb_htype (current it).type == Htype.repeated in
    let sized : MemoryAction (Unit {0}) =
      if repeated then put_number 4 it.p_size 0 else return tt in
    Finishes-seq _ (sized >> free_entry free it.p_data)
      (Finishes-if (repeated && (ltype == Ltype.string || ltype == Ltype.bytes)) _ (return tt)
        (Finishes-bind (reading (λ mem. load_pointer mem it.p_data)) _ (λ mem. done _ mem refl)
          (λ p.
            Finishes-bind (reading (λ mem. load_size mem it.p_size))
              (λ count. each_item (free_entry free) count 8 p) (λ mem. done _ mem refl)
              (λ count. each_item-Finishes (free_entry free) count 8 p (free_entry-Finishes free))))
        Finishes-return)
      (Finishes-seq sized (free_entry free it.p_data)
        (Finishes-if repeated (put_number 4 it.p_size 0) (return tt) (Finishes-put_number _ _ _)
          Finishes-return)
        (free_entry-Finishes free it.p_data))

module _ (program : Program) (free : Free) (rank : ℕ → ℕ)
    (has_tags : (a : ℕ) → IsTagged (program.fields_at a))
    (below : (a : ℕ) → All (IsBelow rank (rank a)) (program.fields_at a)) where
  release_submessages-Finishes :
      (release : PbFieldIter → MemoryAction (Unit {0})) (it : PbFieldIter)
      → Handles program rank has_tags below release (rank (current it).ptr)
      → Finishes (release_submessages program free release it)
  unfolding release_submessages
  release_submessages-Finishes release it h =
      let field = current it in
      let loop : ℕ → MemoryAction (Unit {0}) =
        λ p. if p == 0 then return tt else for_fields release (program.fields_at field.ptr) p in
      Finishes-bind (reading _) _ (λ mem. done _ mem refl)
        (λ item.
          Finishes-bind (reading (release_count it)) _ (λ mem. done _ mem refl)
            (λ count.
              Finishes-if (item == 0) (return tt) (each_item loop count field.data_size item)
                Finishes-return
                (each_item-Finishes loop count field.data_size item (λ p.
                  Finishes-if (p == 0) (return tt)
                    (for_fields release (program.fields_at field.ptr) p) Finishes-return
                    (message-Finishes program rank has_tags below release field.ptr p h)))))

  release_inside-Finishes :
      (release : PbFieldIter → MemoryAction (Unit {0})) (r rounds : ℕ) (it : PbFieldIter)
      → IsBelow rank r (current it)
      → ((a : ℕ) → rank a < r → Handles program rank has_tags below release (rank a))
      → Finishes (release_inside program free release rounds it)
  unfolding release_inside
  release_inside-Finishes release r rounds it here inner =
      elim (Bool-cases (pb_ltype (current it).type == Ltype.submessage)) [
        | inl e ↦
            rw (here.plain, e)
              (release_submessages-Finishes release it (inner (current it).ptr (here.inner e)))
        | inr n ↦ rw (here.plain, n) Finishes-return
      ]

  pub pb_release_single_field-Finishes :
      (fuel r : ℕ)
      → r < fuel
      → Handles program rank has_tags below (pb_release_single_field program free fuel) r
  unfolding pb_release_single_field release_field
  pb_release_single_field-Finishes zero r h it here = absurd (omega arith)
  pb_release_single_field-Finishes (suc fuel) r h it here =
      let field = current it in
      let release = pb_release_single_field program free fuel in
      Finishes-bind (reading (λ mem. load_size mem it.p_size)) _ (λ mem. done _ mem refl)
        (λ which.
          Finishes-if (pb_htype field.type == Htype.oneof && not (which == field.tag)) (return tt) _
            Finishes-return
            (Finishes-seq (release_inside program free release fuel it) _
              (release_inside-Finishes release r fuel it here
                (λ a lt. pb_release_single_field-Finishes fuel (rank a) (omega arith)))
              (Finishes-if (pb_atype field.type == Atype.pointer) (release_pointer free it)
                (return tt) (release_pointer-Finishes free it) Finishes-return)))

  pub pb_release-Finishes :
      (fuel a dest : ℕ) → rank a < fuel → Finishes (pb_release program free fuel a dest)
  unfolding pb_release
  pb_release-Finishes fuel a dest h =
      Finishes-if (dest == 0) (return tt)
        (for_fields (pb_release_single_field program free fuel) (program.fields_at a) dest)
        Finishes-return
        (message-Finishes program rank has_tags below (pb_release_single_field program free fuel) a
          dest (pb_release_single_field-Finishes fuel (rank a) h))
