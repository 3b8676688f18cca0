-- ===== src/Nanopb/Decode/EndingField.antt =====
-- ios/Pods/nanopb/pb_decode.c: fields of every allocation come to an end, and leave the iterator on
-- the same descriptor array.
use spar_somnong.Common.{
  ℕ, ◌<◌, ◌≡◌, refl, ◌∙◌, Bool, true, false, not, ◌==◌, if◌then◌else◌, List, All, ok, return, arith,
}
use spar_somnong.Nanopb.Types.{
  PbField, pb_ltype, pb_htype, pb_atype, invalid_field_type, invalid_union_tag, iterator_error,
}
use spar_somnong.Nanopb.Ltype
use spar_somnong.Nanopb.Htype
use spar_somnong.Nanopb.Atype
use spar_somnong.Nanopb.Memory.{load_size}
use spar_somnong.Nanopb.Iter.{PbFieldIter, current, pb_field_iter_find}
use spar_somnong.Nanopb.Iter.Search.{IsTagged}
use spar_somnong.Nanopb.Encode.EndsMessage.{IsBelow}
use spar_somnong.Nanopb.Decode.Target.{Target, refuse}
use spar_somnong.Nanopb.Decode.Numbers.{
  FieldDecoder, pb_dec_varint, pb_dec_uvarint, pb_dec_svarint, pb_dec_fixed32, pb_dec_fixed64,
}
use spar_somnong.Nanopb.Decode.Blocks.{pb_dec_bytes, pb_dec_string, pb_dec_fixed_length_bytes}
use spar_somnong.Nanopb.Decode.Heap.{on_memory}
use spar_somnong.Nanopb.Decode.Initial.{pb_message_set_to_defaults}
use spar_somnong.Nanopb.Decode.Release.{pb_release_single_field}
use spar_somnong.Nanopb.Decode.Host.{Host}
use spar_somnong.Nanopb.Decode.Static.{decode_static_field}
use spar_somnong.Nanopb.Decode.Pointer.{decode_pointer_field}
use spar_somnong.Nanopb.Decode.Callback.{decode_callback_field}
use spar_somnong.Nanopb.Decode.Field.{
  pb_decoders, pb_release_union_field, decode_by_allocation, decode_field,
}
use spar_somnong.Nanopb.Decode.Allocate.{Realloc}
use spar_somnong.Nanopb.Decode.Done.{Finishes, pb_message_set_to_defaults-Finishes}
use spar_somnong.Nanopb.Decode.ReleaseDone.{pb_release_single_field-Finishes}
use spar_somnong.Nanopb.Decode.Advances.{
  Advances, Advances-refuse, Advances-weaken, Advances-fault, Advances-on_memory,
}
use spar_somnong.Nanopb.Decode.AdvancesValues.{
  Takes, pb_dec_varint-Takes, pb_dec_uvarint-Takes, pb_dec_svarint-Takes, pb_dec_fixed32-Takes,
  pb_dec_fixed64-Takes, pb_dec_bytes-Takes, pb_dec_string-Takes, pb_dec_fixed_length_bytes-Takes,
}
use spar_somnong.Nanopb.Decode.Ending.{Ending, Ending-if, Decodes}
use spar_somnong.Nanopb.Decode.EndingStatic.{decode_static_field-Ending}
use spar_somnong.Nanopb.Decode.EndingPointer.{decode_pointer_field-Ending}
use spar_somnong.Nanopb.Decode.EndingCallback.{Consumes, decode_callback_field-Ending}
use spar_somnong.Nanopb.Decode.AdvancesTo.{
  AdvancesTo, AdvancesTo-return, AdvancesTo-of, AdvancesTo-refuse, AdvancesTo-either, AdvancesTo-if,
  AdvancesTo-bind,
}
use spar_somnong.Nanopb.Decode.Stays.{start-find, field_at-IsBelow_any}

-- No message type contains itself or extensions, and the user's callbacks take bytes.
pub record IsRankedHost (host : Host) : Type 0 where
  pub rank : ℕ → ℕ
  pub has_tags : (a : ℕ) → IsTagged (host.program.fields_at a)
  pub below : (a : ℕ) → All (IsBelow rank (rank a)) (host.program.fields_at a)
  pub callbacks :
      (function : ℕ) (field : PbField) (arg : ℕ)
      → Consumes (host.decode_callback function field arg)

-- The decoder comes to an end on a field, and takes a byte where it returns.
abbrev pub TakesAt : FieldDecoder → PbField → Type 0
TakesAt func field = (dest : ℕ) (t : Target) → Advances 1 t (func field dest t)

TakesAt-when :
    (b : Bool) (x y : FieldDecoder) (field : PbField)
    → (b ≡ true → TakesAt x field)
    → TakesAt y field
    → TakesAt (if b then x else y) field
TakesAt-when true x y field p q = p refl
TakesAt-when false x y field p q = q

TakesAt-if :
    (b : Bool) (x y : FieldDecoder) (field : PbField)
    → Takes x
    → TakesAt y field
    → TakesAt (if b then x else y) field
TakesAt-if b x y field p q = TakesAt-when b x y field (λ e. p field) q

pb_decoders-TakesAt :
    (realloc : Realloc) (submessage : FieldDecoder) (ltype : ℕ) (field : PbField)
    → ((ltype == Ltype.submessage) ≡ true → TakesAt submessage field)
    → TakesAt (pb_decoders realloc submessage ltype) field
unfolding pb_decoders
pb_decoders-TakesAt realloc submessage ltype field h =
    TakesAt-if (ltype == Ltype.varint) pb_dec_varint _ field pb_dec_varint-Takes (
      TakesAt-if (ltype == Ltype.uvarint) pb_dec_uvarint _ field pb_dec_uvarint-Takes (
        TakesAt-if (ltype == Ltype.svarint) pb_dec_svarint _ field pb_dec_svarint-Takes (
          TakesAt-if (ltype == Ltype.fixed32) pb_dec_fixed32 _ field pb_dec_fixed32-Takes (
            TakesAt-if (ltype == Ltype.fixed64) pb_dec_fixed64 _ field pb_dec_fixed64-Takes (
              TakesAt-if (ltype == Ltype.bytes) (pb_dec_bytes realloc) _ field
                (pb_dec_bytes-Takes realloc)
                (TakesAt-if (ltype == Ltype.string) (pb_dec_string realloc) _ field
                  (pb_dec_string-Takes realloc)
                  (TakesAt-when (ltype == Ltype.submessage) submessage _ field h (
                    TakesAt-if (ltype == Ltype.fixed_length_bytes) pb_dec_fixed_length_bytes _ field
                      pb_dec_fixed_length_bytes-Takes (λ dest t. Advances-fault 1 t)))))))))

-- `submessage` comes to an end on message types of a rank below `r`.
module _ (host : Host) (ranked : IsRankedHost host) (submessage : FieldDecoder) (fuel r : ℕ)
    (enough : r < fuel)
    (inner : (field : PbField) → ranked.rank field.ptr < r → TakesAt submessage field) where
  decode_by_allocation-Ending :
      (wire_type : ℕ) (it : PbFieldIter)
      → IsBelow ranked.rank r (current it)
      → Ending (decode_by_allocation host submessage fuel wire_type it)
  unfolding decode_by_allocation
  decode_by_allocation-Ending wire_type it here =
      let field = current it in
      let func = pb_decoders host.realloc submessage (pb_ltype field.type) in
      let takes : TakesAt func field =
        pb_decoders-TakesAt host.realloc submessage (pb_ltype field.type) field
          (λ e. inner field (here.inner e)) in
      let decodes : Decodes func field = record {
        ending = λ dest t. Advances-weaken 1 0 t _ (omega arith) (takes dest t);
        takes = λ e. takes;
      } in
      let defaults = pb_message_set_to_defaults host.program fuel in
      let initial : (pb_ltype field.type == Ltype.submessage) ≡ true
          → (dest : ℕ) → Finishes (defaults field.ptr dest) =
        λ e dest.
          pb_message_set_to_defaults-Finishes host.program ranked.rank ranked.has_tags ranked.below
            fuel field.ptr dest (omega (arith, here.inner e, enough)) in
      let release = pb_release_single_field host.program host.free fuel in
      let releases : Finishes (release it) =
        pb_release_single_field-Finishes host.program host.free ranked.rank ranked.has_tags
          ranked.below fuel r enough it here in
      Ending-if (pb_atype field.type == Atype.static)
        (decode_static_field func it defaults wire_type) _
        (decode_static_field-Ending func it decodes defaults wire_type (λ e. initial e it.p_data))
        (Ending-if (pb_atype field.type == Atype.pointer)
          (decode_pointer_field host.realloc defaults release func it wire_type) _
          (decode_pointer_field-Ending host.realloc defaults release func it decodes initial
            releases wire_type)
          (Ending-if (pb_atype field.type == Atype.callback)
            (decode_callback_field host wire_type it) (refuse invalid_field_type)
            (decode_callback_field-Ending host wire_type it ranked.callbacks)
            (λ t. Advances-refuse 0 t invalid_field_type)))

  -- The iterator is on the table `fields`.
  abbrev pub OnTable : List PbField → PbFieldIter → Type 0
  OnTable fields it = it.start ≡ fields

  module _ (fields : List PbField) (below : All (IsBelow ranked.rank r) fields) where
    pub current-IsBelow :
        (it : PbFieldIter) → it.start ≡ fields → IsBelow ranked.rank r (current it)
    current-IsBelow it same = rw same (field_at-IsBelow_any ranked.rank r fields it.pos below)

    pb_release_union_field-AdvancesTo :
        (it : PbFieldIter) (t : Target)
        → it.start ≡ fields
        → AdvancesTo (OnTable fields) t (pb_release_union_field host submessage fuel it t)
    unfolding pb_release_union_field
    pb_release_union_field-AdvancesTo it t same =
        let old_tag = load_size t.memory it.p_size in
        let new_tag = (current it).tag in
        let old = pb_field_iter_find it old_tag in
        let on_old : old.1.start ≡ fields = start-find it old_tag ∙ same in
        let new = pb_field_iter_find old.1 new_tag in
        let on_new : new.1.start ≡ fields = start-find old.1 new_tag ∙ on_old in
        let release = pb_release_single_field host.program host.free fuel old.1 in
        let released : Finishes release =
          pb_release_single_field-Finishes host.program host.free ranked.rank ranked.has_tags
            ranked.below fuel r enough old.1 (current-IsBelow old.1 on_old) in
        AdvancesTo-either (OnTable fields) (old_tag == 0) (ok it, t) _
          (AdvancesTo-return (OnTable fields) it t same)
          (AdvancesTo-either (OnTable fields) (old_tag == new_tag) (ok it, t) _
            (AdvancesTo-return (OnTable fields) it t same)
            (AdvancesTo-either (OnTable fields) (not old.0) (refuse invalid_union_tag t) _
              (AdvancesTo-refuse (OnTable fields) invalid_union_tag t)
              (AdvancesTo-bind (λ _. Unit {0}) (OnTable fields) (on_memory release) _ t
                (AdvancesTo-of (λ _. Unit {0}) t _ (λ a. tt)
                  (Advances-on_memory release t released))
                (λ a u p le.
                  AdvancesTo-if (OnTable fields) (not new.0) (refuse iterator_error) (return new.1)
                    u (AdvancesTo-refuse (OnTable fields) iterator_error u)
                    (AdvancesTo-return (OnTable fields) new.1 u on_new)))))

    pub decode_field-AdvancesTo :
        (wire_type : ℕ) (it : PbFieldIter) (t : Target)
        → it.start ≡ fields
        → AdvancesTo (OnTable fields) t (decode_field host submessage fuel wire_type it t)
    unfolding decode_field
    decode_field-AdvancesTo wire_type it t same =
        AdvancesTo-bind (OnTable fields) (OnTable fields)
          (if pb_htype (current it).type == Htype.oneof
            then pb_release_union_field host submessage fuel it
            else return it)
          _ t
          (AdvancesTo-if (OnTable fields) (pb_htype (current it).type == Htype.oneof)
            (pb_release_union_field host submessage fuel it) (return it) t
            (pb_release_union_field-AdvancesTo it t same)
            (AdvancesTo-return (OnTable fields) it t same))
          (λ it' u on le.
            AdvancesTo-bind (λ _. Unit {0}) (OnTable fields)
              (decode_by_allocation host submessage fuel wire_type it') (λ _. return it') u
              (AdvancesTo-of (λ _. Unit {0}) u _ (λ a. tt)
                (decode_by_allocation-Ending wire_type it' (current-IsBelow it' on) u))
              (λ a v p le'. AdvancesTo-return (OnTable fields) it' v on))
