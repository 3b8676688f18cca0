-- ===== src/Nanopb/Decode/Message.antt =====
-- ios/Pods/nanopb/pb_decode.c: whole messages.
use spar_somnong.Common.{
  ℕ, zero, suc, ◌-◌, ◌^◌, Bool, true, false, not, ◌&&◌, Option, none, some, List, leb, ◌==◌,
  if◌then◌else◌, Outcome, ok, failed, fault, out_of_fuel, ◌>>=◌, ◌>>◌, return, exhausted,
}
use spar_somnong.Nanopb.Types.{
  PbField, pb_htype, wrong_fixed_count, missing_required_field, invalid_field_descriptor,
}
use spar_somnong.Nanopb.Htype
use spar_somnong.Nanopb.Memory.{load_size}
use spar_somnong.Nanopb.Istream.Varints.{EofOutcome}
use spar_somnong.Nanopb.Istream.Values.{pb_decode_tag, pb_skip_field}
use spar_somnong.Nanopb.Iter.{
  PbFieldIter, field_at, current, pb_field_iter_begin, pb_field_iter_find,
}
use spar_somnong.Nanopb.Decode.Target.{Target, FieldAction, on_stream, refuse, assign}
use spar_somnong.Nanopb.Decode.Numbers.{FieldDecoder}
use spar_somnong.Nanopb.Decode.Heap.{on_memory}
use spar_somnong.Nanopb.Decode.Initial.{pb_message_set_to_defaults}
use spar_somnong.Nanopb.Decode.Release.{pb_release}
use spar_somnong.Nanopb.Decode.Host.{Host}
use spar_somnong.Nanopb.Decode.Substream.{with_substream, in_substream, close_and_return}
use spar_somnong.Nanopb.Decode.Field.{decode_field, decode_extension, find_extension_field}
use spar_somnong.Nanopb.Decode.Required.{none_seen, mark_if_required, all_seen, required_count}

-- The local variables of `pb_decode_noinit` other than `fixed_count_size`, which the field decoders
-- reach through the iterator. `fixed_count_field` is a position in the descriptor array.
pub record Scan : Type 0 where
  pub it : PbFieldIter
  pub fields_seen : List ℕ
  pub extension_range_start : ℕ
  pub fixed_count_field : Option ℕ

abbrev pub start_scan : PbFieldIter → Scan
start_scan it = record {
  it = it;
  fields_seen = none_seen;
  extension_range_start = 0;
  fixed_count_field = none;
}

-- Whether `fixed_count_size` is the size of the array at a position.
abbrev pub is_complete : List PbField → Option ℕ → ℕ → Bool
is_complete fields none size = true
is_complete fields (some pos) size = size == (field_at fields pos).array_size

abbrev pub is_at : Option ℕ → ℕ → Bool
is_at none pos = false
is_at (some p) pos = p == pos

-- What follows the tag; at the end of the input the loop is left.
abbrev pub on_tag {ℓ} :
    {A : Type ℓ} → EofOutcome (ℕ × ℕ) → FieldAction A → (ℕ → ℕ → FieldAction A) → FieldAction A
on_tag (ok (wire_type, tag), eof, s) at_end k t = k wire_type tag (record t { stream = s })
on_tag (failed, true, s) at_end k t = at_end (record t { stream = s })
on_tag (failed, false, s) at_end k t = (failed, record t { stream = s })
on_tag (fault, eof, s) at_end k t = (fault, record t { stream = s })
on_tag (out_of_fuel, eof, s) at_end k t = (out_of_fuel, record t { stream = s })

-- `submessage` is `pb_dec_submessage`, `size_at` the address of `fixed_count_size`.
module _ (host : Host) (submessage : FieldDecoder) (fuel size_at : ℕ) where
  unfoldable pub skip_unknown : ℕ → Scan → FieldAction Scan
  skip_unknown wire_type sc = on_stream (pb_skip_field wire_type) >> return sc

  -- A field whose tag is not in the descriptor array.
  unfoldable pub unknown_field : ℕ → ℕ → Scan → FieldAction Scan
  unknown_field wire_type tag sc t =
      let range = find_extension_field sc.it in
      let start : ℕ = if not range.0 then 2 ^ 32 - 1 else (current range.1).tag in
      let sc' = record sc { it = range.1; extension_range_start = start } in
      let extended : FieldAction Scan = do
        decode_extension host submessage fuel tag wire_type range.1
        λ t'.
            if not (t.stream.bytes_left == t'.stream.bytes_left)
            then (ok sc', t')
            else skip_unknown wire_type sc' t'
      in if leb sc.extension_range_start tag
        then (if leb start tag then extended t else skip_unknown wire_type sc' t)
        else skip_unknown wire_type sc t

  -- A repeated field without a count in the struct counts in `fixed_count_size`.
  unfoldable pub choose_count : Scan → FieldAction Scan
  choose_count sc t =
      let it = sc.it in
      let sc' = record sc { it = record it { p_size = size_at } } in
      let change : FieldAction Scan =
        assign 4 size_at 0 >> return (record sc' { fixed_count_field = some it.pos }) in
      let complete = is_complete it.start sc.fixed_count_field (load_size t.memory size_at) in
      if pb_htype (current it).type == Htype.repeated && it.p_size == it.p_data
      then (if is_at sc.fixed_count_field it.pos
          then (ok sc', t)
          else (if not complete then refuse wrong_fixed_count t else change t))
      else (ok sc, t)

  -- A field of the descriptor array.
  unfoldable pub known_field : ℕ → Scan → FieldAction Scan
  known_field wire_type sc = do
    sc' ← choose_count sc
    let seen = mark_if_required sc'.it sc'.fields_seen
    it ← decode_field host submessage fuel wire_type sc'.it
    return (record sc' { it = it; fields_seen = seen })

  unfoldable pub decode_tagged : Scan → ℕ → ℕ → FieldAction Scan
  decode_tagged sc wire_type tag =
      let found = pb_field_iter_find sc.it tag in
      let sc' = record sc { it = found.1 } in
      if not found.0 then unknown_field wire_type tag sc' else known_field wire_type sc'

  -- The loop over the fields of the stream; the result is what the local variables then hold.
  unfoldable pub scan_loop : ℕ → Scan → FieldAction Scan
  scan_loop zero sc t = if t.stream.bytes_left == 0 then (ok sc, t) else exhausted t
  scan_loop (suc rounds) sc t =
      let more =
        on_tag (pb_decode_tag t.stream) (return sc)
          (λ wire_type tag. decode_tagged sc wire_type tag >>= scan_loop rounds) t in
      if t.stream.bytes_left == 0 then (ok sc, t) else more

  -- The tests behind the loop.
  unfoldable pub check_scan : Scan → FieldAction (Unit {0})
  check_scan sc t =
      if not (is_complete sc.it.start sc.fixed_count_field (load_size t.memory size_at))
      then refuse wrong_fixed_count t
      else (if all_seen (required_count sc.it) sc.fields_seen
          then (ok tt, t)
          else refuse missing_required_field t)

  -- Each field takes a byte of the stream, so a round for each byte is enough.
  unfoldable pub decode_fields : List PbField → ℕ → FieldAction (Unit {0})
  decode_fields fields dest_struct t =
      let sc = start_scan (pb_field_iter_begin fields dest_struct).1 in
      (assign 4 size_at 0 >> (scan_loop t.stream.bytes_left sc >>= check_scan)) t

-- On failure the message is released.
abbrev pub release_failed :
    FieldAction (Unit {0}) → Outcome (Unit {0}) × Target → Outcome (Unit {0}) × Target
release_failed release (ok _, t) = (ok tt, t)
release_failed release (failed, t) = (release >> λ t'. (failed, t')) t
release_failed release (fault, t) = (fault, t)
release_failed release (out_of_fuel, t) = (out_of_fuel, t)

module _ (host : Host) where
  -- `pb_decode` in terms of `pb_decode_noinit` at the same fields and message.
  unfoldable pub decode_initialized : ℕ → FieldAction (Unit {0}) → ℕ → ℕ → FieldAction (Unit {0})
  decode_initialized fuel noinit fields dest_struct =
      on_memory (pb_message_set_to_defaults host.program fuel fields dest_struct) >> λ t.
      release_failed (on_memory (pb_release host.program host.free fuel fields dest_struct))
        (noinit t)

  -- `noinit` is `pb_decode_noinit` on the submessage.
  unfoldable pub pb_dec_submessage : ℕ → (ℕ → ℕ → FieldAction (Unit {0})) → FieldDecoder
  pb_dec_submessage fuel noinit field dest =
      let body : FieldAction (Unit {0}) =
        if pb_htype field.type == Htype.repeated
        then decode_initialized fuel (noinit field.ptr dest) field.ptr dest
        else noinit field.ptr dest in
      with_substream (if field.ptr == 0 then return tt else body) λ status sub.
        if field.ptr == 0 then refuse invalid_field_descriptor else close_and_return sub status

  -- The fuel bounds the nesting of messages and the number of extensions of one.
  unfoldable pub pb_decode_noinit : ℕ → ℕ → ℕ → FieldAction (Unit {0})
  pb_decode_noinit zero fields dest_struct = exhausted
  pb_decode_noinit (suc fuel) fields dest_struct =
      decode_fields host (pb_dec_submessage fuel (pb_decode_noinit fuel)) fuel
        (host.fixed_count_size_at fuel) (host.program.fields_at fields) dest_struct

  unfoldable pub pb_decode : ℕ → ℕ → ℕ → FieldAction (Unit {0})
  pb_decode fuel fields dest_struct =
      decode_initialized fuel (pb_decode_noinit fuel fields dest_struct) fields dest_struct

  unfoldable pub pb_decode_delimited_noinit : ℕ → ℕ → ℕ → FieldAction (Unit {0})
  pb_decode_delimited_noinit fuel fields dest_struct =
      in_substream (pb_decode_noinit fuel fields dest_struct)

  unfoldable pub pb_decode_delimited : ℕ → ℕ → ℕ → FieldAction (Unit {0})
  pb_decode_delimited fuel fields dest_struct = in_substream (pb_decode fuel fields dest_struct)

  unfoldable pub pb_decode_nullterminated : ℕ → ℕ → ℕ → FieldAction (Unit {0})
  pb_decode_nullterminated fuel fields dest_struct = pb_decode fuel fields dest_struct
