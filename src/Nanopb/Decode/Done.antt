-- ===== src/Nanopb/Decode/Done.antt =====
-- ios/Pods/nanopb/pb_decode.c: setting defaults comes to an end for message types that do not
-- contain themselves.
use spar_somnong.Common.{
  ℕ, zero, suc, ◌+◌, ◌<◌, ◌≤◌, ◌≡◌, refl, Bool, true, false, Bool-cases, inl, inr, not, ◌&&◌, ◌||◌,
  ◌==◌, if◌then◌else◌, List, length, All, Outcome, ok, ◌>>=◌, ◌>>◌, return, arith, ◌∙◌, sym,
}
use spar_somnong.Nanopb.Types.{PbField, u64, pb_ltype, pb_htype, pb_atype}
use spar_somnong.Nanopb.Ltype
use spar_somnong.Nanopb.Htype
use spar_somnong.Nanopb.Atype
use spar_somnong.Nanopb.Memory.{Memory, Program}
use spar_somnong.Nanopb.Iter.{
  PbFieldIter, field_at, current, iter_at_start, pb_field_iter_begin, pb_field_iter_next,
}
use spar_somnong.Nanopb.Iter.Search.{IsTagged}
use spar_somnong.Nanopb.Encode.EndsMessage.{IsBelow, field_at-IsBelow, turn, over, onward}
use spar_somnong.Nanopb.Encode.EndsProgram.{nonempty}
use spar_somnong.Nanopb.Decode.Heap.{MemoryAction, put_number, copy, each_field, for_fields}
use spar_somnong.Nanopb.Decode.Initial.{
  init_data, set_static, set_pointer, set_field, pb_field_set_to_default,
  pb_message_set_to_defaults,
}
use spar_somnong.Nanopb.Decode.Release.{each_item}

-- The call returned.
pub data Done {A : Type 0} (r : Outcome A × Memory) : Type 0 where
  done : (a : A) (mem : Memory) → r ≡ (ok a, mem) → Done r

-- An action that returns on every memory.
abbrev pub Finishes : {A : Type 0} → MemoryAction A → Type 0
Finishes act = (mem : Memory) → Done (act mem)

pub Finishes-return : Finishes (return tt)
Finishes-return mem = done tt mem refl

pub Finishes-put_number : (n a v : ℕ) → Finishes (put_number n a v)
Finishes-put_number n a v mem = done tt _ refl

pub Finishes-bind :
    {A B : Type 0} (m : MemoryAction A) (f : A → MemoryAction B)
    → Finishes m
    → ((a : A) → Finishes (f a))
    → Finishes (m >>= f)
Finishes-bind m f h k mem = elim (h mem) [ done a mem' e ↦ rw e (k a mem') ]

pub Finishes-seq : (m n : MemoryAction (Unit {0})) → Finishes m → Finishes n → Finishes (m >> n)
Finishes-seq m n h k = Finishes-bind m (λ _. n) h (λ _. k)

pub Finishes-if :
    (b : Bool) (m n : MemoryAction (Unit {0}))
    → Finishes m
    → Finishes n
    → Finishes (if b then m else n)
Finishes-if true m n h k = h
Finishes-if false m n h k = k

pub each_item-Finishes :
    (act : ℕ → MemoryAction (Unit {0})) (count data_size p : ℕ)
    → ((q : ℕ) → Finishes (act q))
    → Finishes (each_item act count data_size p)
unfolding each_item
each_item-Finishes act zero data_size p h = Finishes-return
each_item-Finishes act (suc count) data_size p h =
    Finishes-seq (act p) (each_item act count data_size (u64 (p + data_size))) (h p)
      (each_item-Finishes act count data_size (u64 (p + data_size)) h)

module _ (fields : List PbField) (tags : IsTagged fields)
    (act : PbFieldIter → MemoryAction (Unit {0}))
    (acts : (it : PbFieldIter)
      → it.start ≡ fields
      → it.pos < length fields
      → Finishes (act it)) where
  each_field-Finishes :
      (rounds : ℕ) (it : PbFieldIter)
      → it.start ≡ fields
      → it.pos < length fields
      → length fields ≤ it.pos + rounds
      → Finishes (each_field act rounds it)
  unfolding each_field
  each_field-Finishes zero it same inside enough = absurd (omega arith)
  each_field-Finishes (suc rounds) it same inside enough =
      Finishes-seq (act it)
        (if (pb_field_iter_next it).0
          then each_field act rounds (pb_field_iter_next it).1
          else return tt)
        (acts it same inside)
        (elim (turn it (rw same tags) (rw same inside)) [
          | over e ↦ rw e Finishes-return
          | onward e st ps more ↦ rw e (
              each_field-Finishes rounds (pb_field_iter_next it).1 (st ∙ same)
                (rw (ps, sym same) more) (rw ps (omega arith)))
        ])

  pub for_fields-Finishes : (dest : ℕ) → Finishes (for_fields act fields dest)
  unfolding for_fields pb_field_iter_begin
  for_fields-Finishes dest = elim (Bool-cases ((field_at fields 0).tag == 0)) [
    | inl e ↦ rw e Finishes-return
    | inr n ↦ rw n (
        each_field-Finishes (length fields) (iter_at_start fields dest) refl (nonempty fields n)
          (omega arith))
  ]

-- A field of a message type of rank `r`, in a program whose message types are ranked.
module _ (program : Program) (rank : ℕ → ℕ) (has_tags : (a : ℕ) → IsTagged (program.fields_at a))
    (below : (a : ℕ) → All (IsBelow rank (rank a)) (program.fields_at a)) where
  -- An action on single fields that returns for all message types of a lower rank.
  abbrev pub Handles : (PbFieldIter → MemoryAction (Unit {0})) → ℕ → Type 0
  Handles act r = (it : PbFieldIter) → IsBelow rank r (current it) → Finishes (act it)

  pub message-Finishes :
      (act : PbFieldIter → MemoryAction (Unit {0})) (a dest : ℕ)
      → Handles act (rank a)
      → Finishes (for_fields act (program.fields_at a) dest)
  message-Finishes act a dest h =
      for_fields-Finishes (program.fields_at a) (has_tags a) act
        (λ it same inside.
          h it (
            rw same (field_at-IsBelow rank (rank a) (program.fields_at a) it.pos (below a) inside)))
        dest

  set_field-Finishes :
      (set : PbFieldIter → MemoryAction (Unit {0})) (r rounds : ℕ) (it : PbFieldIter)
      → IsBelow rank r (current it)
      → ((a : ℕ) → rank a < r → Handles set (rank a))
      → Finishes (set_field program set rounds it)
  unfolding set_field set_static set_pointer init_data
  set_field-Finishes set r rounds it here inner =
      let field = current it in
      let htype = pb_htype field.type in
      let listed = htype == Htype.repeated || htype == Htype.oneof in
      let submessage = pb_ltype field.type == Ltype.submessage in
      let data_set : Finishes (init_data program set it) = elim (Bool-cases submessage) [
        | inl e ↦ rw e (message-Finishes set field.ptr it.p_data (inner field.ptr (here.inner e)))
        | inr n ↦ rw n (
            Finishes-if (not (field.ptr == 0)) (copy it.p_data field.ptr field.data_size)
              (put_number field.data_size it.p_data 0) (λ mem. done tt _ refl)
              (Finishes-put_number _ _ _))
      ] in
      rw here.plain (
        Finishes-if (pb_atype field.type == Atype.static) (set_static program set it) _
          (Finishes-if (htype == Htype.optional && not (it.p_size == it.p_data))
            (put_number 1 it.p_size 0 >> init_data program set it) _
            (Finishes-seq (put_number 1 it.p_size 0) (init_data program set it)
              (Finishes-put_number _ _ _) data_set)
            (Finishes-if listed (put_number 4 it.p_size 0) (init_data program set it)
              (Finishes-put_number _ _ _) data_set))
          (Finishes-if (pb_atype field.type == Atype.pointer) (set_pointer program set it)
            (return tt)
            (Finishes-seq (put_number 8 it.p_data 0)
              (if listed then put_number 4 it.p_size 0 else return tt) (Finishes-put_number _ _ _)
              (Finishes-if listed (put_number 4 it.p_size 0) (return tt) (Finishes-put_number _ _ _)
                Finishes-return))
            Finishes-return))

  pb_field_set_to_default-Finishes :
      (fuel r : ℕ) → r < fuel → Handles (pb_field_set_to_default program fuel) r
  unfolding pb_field_set_to_default
  pb_field_set_to_default-Finishes zero r h it here = absurd (omega arith)
  pb_field_set_to_default-Finishes (suc fuel) r h it here =
      set_field-Finishes (pb_field_set_to_default program fuel) r fuel it here
        (λ a lt. pb_field_set_to_default-Finishes fuel (rank a) (omega arith))

  pub pb_message_set_to_defaults-Finishes :
      (fuel a dest : ℕ) → rank a < fuel → Finishes (pb_message_set_to_defaults program fuel a dest)
  unfolding pb_message_set_to_defaults
  pb_message_set_to_defaults-Finishes fuel a dest h =
      message-Finishes (pb_field_set_to_default program fuel) a dest
        (pb_field_set_to_default-Finishes fuel (rank a) h)
