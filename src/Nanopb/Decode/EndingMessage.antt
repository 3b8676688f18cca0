-- ===== src/Nanopb/Decode/EndingMessage.antt =====
-- ios/Pods/nanopb/pb_decode.c: decoding of whole messages comes to an end.
use spar_somnong.Common.{
  ℕ, zero, suc, ◌-◌, ◌^◌, ◌≤◌, ◌<◌, ◌≡◌, refl, ◌∙◌, true, false, not, ◌&&◌, ◌==◌, List, All, ok,
  return, ◌>>=◌, leb, arith,
}
use spar_somnong.Nanopb.Types.{PbField, pb_htype, wrong_fixed_count, missing_required_field}
use spar_somnong.Nanopb.Htype
use spar_somnong.Nanopb.Memory.{load_size}
use spar_somnong.Nanopb.Istream.Varints.{EofOutcome}
use spar_somnong.Nanopb.Istream.Values.{pb_decode_tag, pb_skip_field}
use spar_somnong.Nanopb.Istream.ProgressValues.{pb_skip_field-Progress}
use spar_somnong.Nanopb.Istream.ProgressSubstream.{Tagged, tagged, untagged, pb_decode_tag-Tagged}
use spar_somnong.Nanopb.Iter.{current, pb_field_iter_begin, pb_field_iter_find}
use spar_somnong.Nanopb.Encode.EndsMessage.{IsBelow}
use spar_somnong.Nanopb.Decode.Target.{Target, FieldAction, on_stream, refuse, assign}
use spar_somnong.Nanopb.Decode.Numbers.{FieldDecoder}
use spar_somnong.Nanopb.Decode.Host.{Host}
use spar_somnong.Nanopb.Decode.Field.{decode_field}
use spar_somnong.Nanopb.Decode.Required.{all_seen, required_count}
use spar_somnong.Nanopb.Decode.Message.{
  Scan, start_scan, is_complete, is_at, on_tag, skip_unknown, unknown_field, choose_count,
  known_field, decode_tagged, scan_loop, check_scan, decode_fields,
}
use spar_somnong.Nanopb.Decode.Advances.{
  Advances, refused, broke, Advances-refuse, Advances-return, Advances-either, Advances-on_stream,
  Advances-bind, Advances-assign, Advances-later,
}
use spar_somnong.Nanopb.Decode.AdvancesTo.{
  AdvancesTo, reached, lost, crashed, AdvancesTo-return, AdvancesTo-of, AdvancesTo-refuse,
  AdvancesTo-either, AdvancesTo-if, AdvancesTo-bind, AdvancesTo-later,
}
use spar_somnong.Nanopb.Decode.Stays.{start-find, below-IsPlain, find_extension_field-none}
use spar_somnong.Nanopb.Decode.Ending.{Ending}
use spar_somnong.Nanopb.Decode.EndingField.{IsRankedHost, TakesAt, decode_field-AdvancesTo}

module _ (host : Host) (ranked : IsRankedHost host) (submessage : FieldDecoder) (fuel r : ℕ)
    (enough : r < fuel)
    (inner : (field : PbField) → ranked.rank field.ptr < r → TakesAt submessage field) (size_at : ℕ)
    (fields : List PbField) (below : All (IsBelow ranked.rank r) fields) where
  -- The iterator is on the table.
  abbrev InTable : Scan → Type 0
  InTable sc = sc.it.start ≡ fields

  skip_unknown-AdvancesTo :
      (wire_type : ℕ) (sc : Scan) (t : Target)
      → InTable sc
      → AdvancesTo InTable t (skip_unknown host submessage fuel size_at wire_type sc t)
  unfolding skip_unknown
  skip_unknown-AdvancesTo wire_type sc t on =
      AdvancesTo-bind (λ _. Unit {0}) InTable (on_stream (pb_skip_field wire_type)) (λ _. return sc)
        t
        (AdvancesTo-of (λ _. Unit {0}) t _ (λ a. tt)
          (Advances-on_stream (pb_skip_field wire_type) 0 t
            (pb_skip_field-Progress wire_type t.stream)))
        (λ a u p le. AdvancesTo-return InTable sc u on)

  -- Without an extension range the field is skipped.
  unknown_field-AdvancesTo :
      (wire_type tag : ℕ) (sc : Scan) (t : Target)
      → tag < 2 ^ 29
      → InTable sc
      → AdvancesTo InTable t (unknown_field host submessage fuel size_at wire_type tag sc t)
  unfolding unknown_field
  unknown_field-AdvancesTo wire_type tag sc t small on =
      let range =
        find_extension_field-none sc.it (rw on (below-IsPlain ranked.rank r fields below)) in
      let far : leb (2 ^ 32 - 1) tag ≡ false = ground arith in
      rw (range.0, far)
        (AdvancesTo-either InTable (leb sc.extension_range_start tag) _ _
          (skip_unknown-AdvancesTo wire_type _ t (range.1 ∙ on))
          (skip_unknown-AdvancesTo wire_type sc t on))

  choose_count-AdvancesTo :
      (sc : Scan) (t : Target)
      → InTable sc
      → AdvancesTo InTable t (choose_count host submessage fuel size_at sc t)
  unfolding choose_count
  choose_count-AdvancesTo sc t on =
      let it = sc.it in
      AdvancesTo-either InTable
        (pb_htype (current it).type == Htype.repeated && it.p_size == it.p_data) _ (ok sc, t)
        (AdvancesTo-either InTable (is_at sc.fixed_count_field it.pos) (ok _, t) _
          (AdvancesTo-return InTable _ t on)
          (AdvancesTo-either InTable
            (not (is_complete it.start sc.fixed_count_field (load_size t.memory size_at)))
            (refuse wrong_fixed_count t) _ (AdvancesTo-refuse InTable wrong_fixed_count t)
            (reached _ _ on (omega arith) refl)))
        (AdvancesTo-return InTable sc t on)

  known_field-AdvancesTo :
      (wire_type : ℕ) (sc : Scan) (t : Target)
      → InTable sc
      → AdvancesTo InTable t (known_field host submessage fuel size_at wire_type sc t)
  unfolding known_field
  known_field-AdvancesTo wire_type sc t on =
      AdvancesTo-bind InTable InTable (choose_count host submessage fuel size_at sc) _ t
        (choose_count-AdvancesTo sc t on)
        (λ sc' u on' le.
          AdvancesTo-bind (λ it. it.start ≡ fields) InTable
            (decode_field host submessage fuel wire_type sc'.it) _ u
            (decode_field-AdvancesTo host ranked submessage fuel r enough inner fields below
              wire_type sc'.it u on')
            (λ it v on'' le'. AdvancesTo-return InTable _ v on''))

  decode_tagged-AdvancesTo :
      (sc : Scan) (wire_type tag : ℕ) (t : Target)
      → tag < 2 ^ 29
      → InTable sc
      → AdvancesTo InTable t (decode_tagged host submessage fuel size_at sc wire_type tag t)
  unfolding decode_tagged
  decode_tagged-AdvancesTo sc wire_type tag t small on =
      let found = pb_field_iter_find sc.it tag in
      let sc' : Scan = record sc { it = found.1 } in
      let on' : found.1.start ≡ fields = start-find sc.it tag ∙ on in
      AdvancesTo-if InTable (not found.0)
        (unknown_field host submessage fuel size_at wire_type tag sc')
        (known_field host submessage fuel size_at wire_type sc') t
        (unknown_field-AdvancesTo wire_type tag sc' t small on')
        (known_field-AdvancesTo wire_type sc' t on')

  -- A round of the loop takes a byte, as long as the rest comes to an end on fewer.
  tag-AdvancesTo :
      (sc : Scan) (k : Scan → FieldAction Scan) (t : Target) (tag : EofOutcome (ℕ × ℕ))
      → InTable sc
      → ((sc' : Scan) (u : Target)
          → InTable sc'
          → u.stream.bytes_left < t.stream.bytes_left
          → AdvancesTo InTable u (k sc' u))
      → Tagged t.stream tag
      → AdvancesTo InTable t (
          on_tag tag
            (return sc)
            (λ wire_type tag'. decode_tagged host submessage fuel size_at sc wire_type tag' >>= k)
            t)
  tag-AdvancesTo sc k t tag on h (tagged wire_type tag' eof s small le e) =
      let u : Target = record t { stream = s } in
      rw e (
        AdvancesTo-later InTable t u _ (omega arith) (
          AdvancesTo-bind InTable InTable
            (decode_tagged host submessage fuel size_at sc wire_type tag') k u
            (decode_tagged-AdvancesTo sc wire_type tag' u small on)
            (λ sc' v on' le'. h sc' v on' (omega arith))))
  tag-AdvancesTo sc k t tag on h (untagged true s le e) = rw e (reached sc _ on le refl)
  tag-AdvancesTo sc k t tag on h (untagged false s le e) = rw e (lost _ le refl)

  scan_loop-AdvancesTo :
      (rounds : ℕ) (sc : Scan) (t : Target)
      → t.stream.bytes_left ≤ rounds
      → InTable sc
      → AdvancesTo InTable t (scan_loop host submessage fuel size_at rounds sc t)
  unfolding scan_loop
  scan_loop-AdvancesTo zero sc t le on =
      let at_end : (t.stream.bytes_left == 0) ≡ true = ground arith in
      rw at_end (AdvancesTo-return InTable sc t on)
  scan_loop-AdvancesTo (suc rounds) sc t le on =
      AdvancesTo-either InTable (t.stream.bytes_left == 0) (ok sc, t) _
        (AdvancesTo-return InTable sc t on)
        (tag-AdvancesTo sc (scan_loop host submessage fuel size_at rounds) t
          (pb_decode_tag t.stream) on
          (λ sc' u on' lt. scan_loop-AdvancesTo rounds sc' u (omega arith) on')
          (pb_decode_tag-Tagged t.stream))

  check_scan-Ending : (sc : Scan) → Ending (check_scan host submessage fuel size_at sc)
  unfolding check_scan
  check_scan-Ending sc t =
      Advances-either
        (not (is_complete sc.it.start sc.fixed_count_field (load_size t.memory size_at)))
        (refuse wrong_fixed_count t) _ (Advances-refuse 0 t wrong_fixed_count)
        (Advances-either (all_seen (required_count sc.it) sc.fields_seen) (ok tt, t)
          (refuse missing_required_field t) (Advances-return tt t)
          (Advances-refuse 0 t missing_required_field))

  checked-Advances :
      (t : Target) (m : FieldAction Scan)
      → AdvancesTo InTable t (m t)
      → Advances 0 t ((m >>= check_scan host submessage fuel size_at) t)
  checked-Advances t m (reached sc u on le e) =
      rw e (Advances-later 0 0 t u _ (omega arith) (omega arith) (check_scan-Ending sc u))
  checked-Advances t m (lost u le e) = rw e (refused u le refl)
  checked-Advances t m (crashed u le e) = rw e (broke u le refl)

  pub decode_fields-Ending :
      (dest : ℕ) → Ending (decode_fields host submessage fuel size_at fields dest)
  unfolding decode_fields pb_field_iter_begin
  decode_fields-Ending dest t =
      let sc = start_scan (pb_field_iter_begin fields dest).1 in
      Advances-bind (assign 4 size_at 0) _ 0 t (Advances-assign 4 size_at 0 t) (λ a u le.
        checked-Advances u (scan_loop host submessage fuel size_at t.stream.bytes_left sc)
          (scan_loop-AdvancesTo t.stream.bytes_left sc u (omega arith) refl))
