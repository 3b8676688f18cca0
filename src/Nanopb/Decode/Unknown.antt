-- ===== src/Nanopb/Decode/Unknown.antt =====
-- ios/Pods/nanopb/pb_decode.c: fields that the descriptors do not know, and the empty input.
use spar_somnong.Common.{
  ℕ, suc, ◌-◌, ◌^◌, ◌≤◌, ◌<◌, ◌≡◌, ◌≢◌, ap, sym, refl, ◌∙◌, true, false, Bool-cases, inl, inr, leb,
  ◌==◌, if◌then◌else◌, List, [], ◌∷◌, length, ok, return, ◌>>◌, arith,
}
use spar_somnong.Nanopb.Types.{PbField, missing_required_field}
use spar_somnong.Nanopb.Istream.Values.{pb_skip_field}
use spar_somnong.Nanopb.Iter.{
  PbFieldIter, field_at, current, iter_at_start, pb_field_iter_find, pb_field_iter_begin,
}
use spar_somnong.Nanopb.Iter.Wanted.{found, missing}
use spar_somnong.Nanopb.Iter.Search.{IsTagged, pb_field_iter_find-Search}
use spar_somnong.Nanopb.Iter.Placed.{IsPlaced, iter_at_start-IsPlaced, find-IsPlaced}
use spar_somnong.Nanopb.Decode.Target.{Target, FieldAction, on_stream, refuse, store}
use spar_somnong.Nanopb.Decode.Numbers.{FieldDecoder}
use spar_somnong.Nanopb.Decode.Host.{Host}
use spar_somnong.Nanopb.Decode.Field.{find_extension_field}
use spar_somnong.Nanopb.Decode.Required.{all_seen}
use spar_somnong.Nanopb.Decode.RequiredSet.{all_seen_iff}
use spar_somnong.Nanopb.Decode.RequiredSeen.{contains}
use spar_somnong.Nanopb.Decode.RequiredCount.{checked_fields, required_count_lem}
use spar_somnong.Nanopb.Decode.AllRequired.{checked-le}
use spar_somnong.Nanopb.Decode.Stays.{IsPlain, start-find, find_extension_field-none}
use spar_somnong.Nanopb.Decode.Message.{
  Scan, skip_unknown, unknown_field, decode_tagged, scan_loop, check_scan, decode_fields,
  pb_decode_noinit,
}

-- No field of the table has the tag.
abbrev pub IsUnknown : ℕ → List PbField → Type 0
IsUnknown tag fields = (i : ℕ) → i < length fields → (field_at fields i).tag ≢ tag

find-unknown :
    (fields : List PbField) (tags : IsTagged fields) (it : PbFieldIter) (tag : ℕ)
    → IsPlaced fields it
    → IsUnknown tag fields
    → (pb_field_iter_find it tag).0 ≡ false
find-unknown fields tags it tag placed unknown =
    let search =
      pb_field_iter_find-Search it tag (rw placed.same tags) (rw placed.same placed.inside) in
    let there = find-IsPlaced fields tags it tag placed in
    elim search [
      | found e same wanted ↦
          let at : current (pb_field_iter_find it tag).1
              ≡ field_at fields (pb_field_iter_find it tag).1.pos =
            rw there.same refl in
          absurd (unknown _ there.inside (ap (λ (f : PbField). f.tag) (sym at) ∙ wanted.0))
      | missing e none ↦ e
    ]

-- What the loop keeps of its variables when it skips a field.
pub record Skips (sc : Scan) (act : FieldAction Scan) (wire_type : ℕ) (t : Target) : Type 0 where
  pub after : Scan
  pub same_start : after.it.start ≡ sc.it.start
  pub same_seen : after.fields_seen ≡ sc.fields_seen
  pub same_count : after.fixed_count_field ≡ sc.fixed_count_field
  pub skipping : act t ≡ (on_stream (pb_skip_field wire_type) >> return after) t

-- In a descriptor array without extension ranges, from a field of it, a field number below 2 ^
-- 29 that none of its fields has is skipped by its wire type: the outcome, the stream and the
-- memory are those of `pb_skip_field`, and the bitmap and the fixed count field stay as they
-- are.
pub decode_tagged-Skips :
    (host : Host) (submessage : FieldDecoder) (fuel size_at : ℕ) (fields : List PbField) (sc : Scan)
    (wire_type tag : ℕ) (t : Target)
    → IsTagged fields
    → IsPlain fields
    → IsPlaced fields sc.it
    → IsUnknown tag fields
    → tag < 2 ^ 29
    → Skips sc (decode_tagged host submessage fuel size_at sc wire_type tag) wire_type t
unfolding decode_tagged unknown_field skip_unknown
decode_tagged-Skips host submessage fuel size_at fields sc wire_type tag t tags plain placed unknown
      small =
    let missing_tag = find-unknown fields tags sc.it tag placed unknown in
    let it = (pb_field_iter_find sc.it tag).1 in
    let on : it.start ≡ sc.it.start = start-find sc.it tag in
    let range = find_extension_field-none it (rw (on, placed.same) plain) in
    let far : leb (2 ^ 32 - 1) tag ≡ false = ground arith in
    elim (Bool-cases (leb sc.extension_range_start tag)) [
      | inl e ↦ record {
        after = record sc { it = (find_extension_field it).1; extension_range_start = 2 ^ 32 - 1 };
        same_start = range.1 ∙ on;
        same_seen = refl;
        same_count = refl;
        skipping = rw (missing_tag, e, range.0, far) refl;
      }
      | inr n ↦ record {
        after = record sc { it = it };
        same_start = on;
        same_seen = refl;
        same_count = refl;
        skipping = rw (missing_tag, n) refl;
      }
    ]

none_contained :
    (count : ℕ)
    → ((count == 0) ≡ false)
    → ((j : ℕ) → j < count → contains j [] ≡ true)
    → false ≡ true
none_contained count n h = h 0 (ground arith)

empty_seen : (count : ℕ) → count ≤ 64 → all_seen count (0 ∷ 0 ∷ []) ≡ (count == 0)
empty_seen count le =
    let test = all_seen_iff count [] le tt in
    elim (Bool-cases (count == 0)) [
      | inl e ↦ rw e (test.1 (λ j lt. absurd (ground arith)))
      | inr n ↦ elim (Bool-cases (all_seen count (0 ∷ 0 ∷ []))) [
        | inl y ↦ absurd (cc (none_contained count n (test.0 y)))
        | inr m ↦ rw n m
      ]
    ]

-- On an empty input `pb_decode_noinit`, of a message type with a field and tags other than
-- zero, returns true if the type has no required field, and fails with "missing required field"
-- if it has one; of the memory it sets its own counter alone.
pub pb_decode_noinit-empty :
    (host : Host) (fuel fields dest : ℕ) (t : Target)
    → IsTagged (host.program.fields_at fields)
    → 0 < length (host.program.fields_at fields)
    → t.stream.bytes_left ≡ 0
    → pb_decode_noinit host (suc fuel) fields dest t ≡ (
        let u = record t { memory = store t.memory 4 (host.fixed_count_size_at fuel) 0 } in
        if checked_fields (host.program.fields_at fields) == 0
        then (ok tt, u)
        else refuse missing_required_field u)
unfolding pb_decode_noinit decode_fields pb_field_iter_begin scan_loop check_scan
pb_decode_noinit-empty host fuel fields dest t tags nonempty e =
    let table = host.program.fields_at fields in
    let placed = iter_at_start-IsPlaced table dest nonempty in
    rw
      (
        e,
        required_count_lem table tags (iter_at_start table dest) placed,
        empty_seen (checked_fields table) (checked-le table),
      )
      refl
