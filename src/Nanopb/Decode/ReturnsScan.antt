-- ===== src/Nanopb/Decode/ReturnsScan.antt =====
-- ios/Pods/nanopb/pb_decode.c: what is known of the iterator and the bitmap where a step of the
-- decode loop returns.
use spar_somnong.Common.{
  ℕ, suc, ◌-◌, ◌^◌, ◌≡◌, refl, ◌∙◌, not, ◌&&◌, ◌==◌, leb, if◌then◌else◌, List, length, ok, return,
}
use spar_somnong.Nanopb.Types.{PbField, pb_htype, wrong_fixed_count}
use spar_somnong.Nanopb.Htype
use spar_somnong.Nanopb.Memory.{load_size}
use spar_somnong.Nanopb.Istream.Values.{pb_skip_field}
use spar_somnong.Nanopb.Iter.{PbFieldIter, field_at, current}
use spar_somnong.Nanopb.Iter.Search.{IsTagged}
use spar_somnong.Nanopb.Iter.Placed.{is_required, required_before, IsPlaced}
use spar_somnong.Nanopb.Decode.Target.{Target, on_stream, refuse}
use spar_somnong.Nanopb.Decode.Numbers.{FieldDecoder}
use spar_somnong.Nanopb.Decode.Host.{Host}
use spar_somnong.Nanopb.Decode.Field.{find_extension_field, decode_field, decode_extension}
use spar_somnong.Nanopb.Decode.Required.{mark_seen, mark_if_required}
use spar_somnong.Nanopb.Decode.Message.{
  Scan, is_complete, is_at, skip_unknown, unknown_field, choose_count, known_field,
}
use spar_somnong.Nanopb.Types.{pb_max_required_fields}
use spar_somnong.Common.{ltb}
use spar_somnong.Nanopb.Decode.Returns.{
  Post, Post-bind, Post-after, Post-either, Post-refuse, find_extension_loop-IsPlaced,
  decode_field-Post,
}

-- The bitmap after the field at a position was decoded.
abbrev pub mark_at : List PbField → ℕ → List ℕ → List ℕ
mark_at fields p seen =
    if is_required (field_at fields p) && ltb (required_before fields p) pb_max_required_fields
    then mark_seen (required_before fields p) seen
    else seen

-- The iterator is placed, and the bitmap is `seen`.
abbrev pub Kept : List PbField → List ℕ → Scan → Type 0
Kept fields seen sc = IsPlaced fields sc.it × (sc.fields_seen ≡ seen)

mark_if_required-placed :
    (fields : List PbField) (it : PbFieldIter) (seen : List ℕ)
    → IsPlaced fields it
    → mark_if_required it seen ≡ mark_at fields it.pos seen
unfolding mark_if_required
mark_if_required-placed fields it seen placed =
    let here : current it ≡ field_at fields it.pos = rw placed.same refl in
    rw (here, placed.index) refl

module _ (fields : List PbField) (tags : IsTagged fields) where
  module _ (host : Host) (submessage : FieldDecoder) (fuel size_at : ℕ) where
    skip_unknown-Post :
        (wire_type : ℕ) (sc : Scan) (t : Target) (seen : List ℕ)
        → Kept fields seen sc
        → Post (Kept fields seen) (skip_unknown host submessage fuel size_at wire_type sc t)
    unfolding skip_unknown
    skip_unknown-Post wire_type sc t seen kept =
        Post-after (Kept fields seen) (on_stream (pb_skip_field wire_type)) (λ _. return sc) t
          (λ a u. kept)

    pub unknown_field-Post :
        (wire_type tag : ℕ) (sc : Scan) (t : Target)
        → IsPlaced fields sc.it
        → Post
            (Kept fields sc.fields_seen)
            (unknown_field host submessage fuel size_at wire_type tag sc t)
    unfolding unknown_field find_extension_field
    unknown_field-Post wire_type tag sc t placed =
        let Q = Kept fields sc.fields_seen in
        let range = find_extension_field sc.it in
        let start : ℕ = if not range.0 then 2 ^ 32 - 1 else (current range.1).tag in
        let sc' : Scan = record sc { it = range.1; extension_range_start = start } in
        let kept : Kept fields sc.fields_seen sc' = (
          find_extension_loop-IsPlaced fields tags (suc (length sc.it.start)) sc.it.pos sc.it
              placed,
          refl,
        ) in
        Post-either Q (leb sc.extension_range_start tag) _ _
          (Post-either Q (leb start tag) _ _
            (Post-after Q (decode_extension host submessage fuel tag wire_type range.1) _ t (λ a u.
              Post-either Q (not (t.stream.bytes_left == u.stream.bytes_left)) (ok sc', u) _ kept
                (skip_unknown-Post wire_type sc' u sc.fields_seen kept)))
            (skip_unknown-Post wire_type sc' t sc.fields_seen kept))
          (skip_unknown-Post wire_type sc t sc.fields_seen (placed, refl))

    -- The counter may change, the position and the bitmap do not.
    abbrev Counted : Scan → Scan → Type 0
    Counted sc sc' =
        IsPlaced fields sc'.it × (sc'.it.pos ≡ sc.it.pos) × (sc'.fields_seen ≡ sc.fields_seen)

    choose_count-Post :
        (sc : Scan) (t : Target)
        → IsPlaced fields sc.it
        → Post (Counted sc) (choose_count host submessage fuel size_at sc t)
    unfolding choose_count
    choose_count-Post sc t placed =
        let Q = Counted sc in
        let it = sc.it in
        let moved : IsPlaced fields (record it { p_size = size_at }) = record {
          same = placed.same;
          inside = placed.inside;
          index = placed.index;
        } in
        Post-either Q (pb_htype (current it).type == Htype.repeated && it.p_size == it.p_data) _ _
          (Post-either Q (is_at sc.fixed_count_field it.pos) _ _ (moved, refl, refl)
            (Post-either Q
              (not (is_complete it.start sc.fixed_count_field (load_size t.memory size_at)))
              (refuse wrong_fixed_count t) _ (Post-refuse Q wrong_fixed_count t)
              (moved, refl, refl)))
          (placed, refl, refl)

    -- The field is marked if it is required.
    pub known_field-Post :
        (wire_type : ℕ) (sc : Scan) (t : Target)
        → IsPlaced fields sc.it
        → Post
            (Kept fields (mark_at fields sc.it.pos sc.fields_seen))
            (known_field host submessage fuel size_at wire_type sc t)
    unfolding known_field
    known_field-Post wire_type sc t placed =
        let seen = mark_at fields sc.it.pos sc.fields_seen in
        Post-bind (Counted sc) (Kept fields seen) (choose_count host submessage fuel size_at sc) _ t
          (choose_count-Post sc t placed)
          (λ sc' u counted.
            let marked : mark_if_required sc'.it sc'.fields_seen ≡ seen =
              mark_if_required-placed fields sc'.it sc'.fields_seen counted.0
              ∙ rw (counted.1, counted.2) refl in
            Post-bind (IsPlaced fields) (Kept fields seen)
              (decode_field host submessage fuel wire_type sc'.it) _ u
              (decode_field-Post fields tags host submessage fuel size_at wire_type sc'.it u
                counted.0)
              (λ it v placed'. (placed', marked)))
