-- ===== src/Nanopb/Decode/AllRequired.antt =====
-- ios/Pods/nanopb/pb_decode.c: a message that decodes has all its required fields.
use spar_somnong.Common.{
  ℕ, suc, ◌≤◌, ◌<◌, ◌≡◌, refl, true, Bool-cases, inl, inr, ltb, ltb→le, List, [], length, Outcome,
  ok, failed, fault, out_of_fuel, resume, arith,
}
use spar_somnong.Nanopb.Types.{PbField, pb_max_required_fields}
use spar_somnong.Nanopb.Memory.{load_size}
use spar_somnong.Nanopb.Istream.{raise}
use spar_somnong.Nanopb.Iter.{field_at, iter_at_start, pb_field_iter_begin}
use spar_somnong.Nanopb.Iter.Search.{IsTagged}
use spar_somnong.Nanopb.Iter.Placed.{is_required, required_before, iter_at_start-IsPlaced}
use spar_somnong.Nanopb.Decode.Target.{Target, store}
use spar_somnong.Nanopb.Decode.Numbers.{FieldDecoder}
use spar_somnong.Nanopb.Decode.Host.{Host}
use spar_somnong.Nanopb.Decode.Required.{all_seen, required_count}
use spar_somnong.Nanopb.Decode.Message.{
  Scan, start_scan, is_complete, scan_loop, check_scan, decode_fields, pb_dec_submessage,
  pb_decode_noinit,
}
use spar_somnong.Nanopb.Decode.RequiredSeen.{contains}
use spar_somnong.Nanopb.Decode.RequiredSet.{all_seen_iff}
use spar_somnong.Nanopb.Decode.RequiredCount.{checked_fields, required_count_lem}
use spar_somnong.Nanopb.Decode.Reaches.{Reaches, at_start, scan_loop-Run}
use spar_somnong.Nanopb.Decode.Tracked.{
  required_before-lt, required_before_unique, Tracked, Reaches-Tracked,
}

pub checked-le : (fields : List PbField) → checked_fields fields ≤ 64
checked-le fields =
    elim (Bool-cases (ltb pb_max_required_fields (required_before fields (length fields)))) [
      | inl e ↦ rw e (omega arith)
      | inr n ↦ rw n (ltb→le 64 (required_before fields (length fields)) n)
    ]

checked-index :
    (fields : List PbField) (p : ℕ)
    → p < length fields
    → is_required (field_at fields p) ≡ true
    → required_before fields p < 64
    → required_before fields p < checked_fields fields
checked-index fields p inside req small =
    elim (Bool-cases (ltb pb_max_required_fields (required_before fields (length fields)))) [
      | inl e ↦ rw e small
      | inr n ↦ rw n (required_before-lt fields p (length fields) inside inside req)
    ]

module _ (host : Host) (submessage : FieldDecoder) (fuel size_at : ℕ) where
  check_scan-seen :
      (sc : Scan) (t u : Target)
      → check_scan host submessage fuel size_at sc t ≡ (ok tt, u)
      → all_seen (required_count sc.it) sc.fields_seen ≡ true
  unfolding check_scan raise
  check_scan-seen sc t u e =
      elim (Bool-cases
        (is_complete sc.it.start sc.fixed_count_field (load_size t.memory size_at))) [
          | inl y ↦ elim (Bool-cases (all_seen (required_count sc.it) sc.fields_seen)) [
            | inl a ↦ a
            | inr n ↦ absurd (cc (rw (y, n) at e))
          ]
          | inr n ↦ absurd (cc (rw n at e))
        ]

  module _ (fields : List PbField) (dest : ℕ) where
    -- The local variables at the start.
    abbrev pub initial : Scan
    initial = start_scan (iter_at_start fields dest)

    -- The decode loop reaches its end, and has then decoded every required field of the table
    -- that is one of the first 64.
    pub record HasRequired (start : Target) : Type 0 where
      pub visited : List ℕ
      pub last : Scan
      pub end : Target
      pub reached : Reaches host submessage fuel size_at initial start visited last end
      pub all :
          (p : ℕ)
          → p < length fields
          → is_required (field_at fields p) ≡ true
          → required_before fields p < 64
          → contains p visited ≡ true

    module _ (tags : IsTagged fields) where
      all-visited :
          (visited : List ℕ) (sc : Scan) (p : ℕ)
          → Tracked fields tags visited sc
          → all_seen (required_count sc.it) sc.fields_seen ≡ true
          → p < length fields
          → is_required (field_at fields p) ≡ true
          → required_before fields p < 64
          → contains p visited ≡ true
      all-visited visited sc p tracked seen inside req small =
          let test =
            rw (required_count_lem fields tags sc.it tracked.placed, tracked.seen) at seen in
          let has =
            (all_seen_iff (checked_fields fields) tracked.marked (checked-le fields)
                tracked.below).0
              test (required_before fields p) (checked-index fields p inside req small) in
          let o = tracked.origin (required_before fields p) has in
          let same : o.position ≡ p =
            required_before_unique fields p o.position inside o.inside req o.required o.has_index in
          rw same at o.was_decoded

      initial-Tracked : 0 < length fields → Tracked fields tags [] initial
      initial-Tracked lt = record {
        placed = iter_at_start-IsPlaced fields dest lt;
        marked = [];
        seen = refl;
        below = tt;
        origin = λ j h. absurd (cc h);
      }

      checked-HasRequired :
          (rounds : ℕ) (start u : Target) (r : Outcome Scan × Target)
          → scan_loop host submessage fuel size_at rounds initial start ≡ r
          → resume r (check_scan host submessage fuel size_at) ≡ (ok tt, u)
          → HasRequired start
      checked-HasRequired rounds start u (ok sc, t) e checked =
          let run =
            scan_loop-Run host submessage fuel size_at initial start rounds [] initial start sc t
              at_start e in
          record {
            visited = run.visited;
            last = sc;
            end = t;
            reached = run.reached;
            all = λ p inside req small.
                all-visited run.visited sc p
                  (Reaches-Tracked fields tags host submessage fuel size_at initial start
                    run.visited sc t (initial-Tracked (omega arith)) run.reached)
                  (check_scan-seen sc t u checked) inside req small;
          }
      checked-HasRequired rounds start u (failed, t) e checked = absurd (cc checked)
      checked-HasRequired rounds start u (fault, t) e checked = absurd (cc checked)
      checked-HasRequired rounds start u (out_of_fuel, t) e checked = absurd (cc checked)

      pub decode_fields-HasRequired :
          (t u : Target)
          → decode_fields host submessage fuel size_at fields dest t ≡ (ok tt, u)
          → HasRequired (record t { memory = store t.memory 4 size_at 0 })
      unfolding decode_fields pb_field_iter_begin
      decode_fields-HasRequired t u e =
          let start = record t { memory = store t.memory 4 size_at 0 } in
          checked-HasRequired t.stream.bytes_left start u
            (scan_loop host submessage fuel size_at t.stream.bytes_left initial start) refl e

-- If `pb_decode_noinit` returns true on a message type whose fields have tags other than zero,
-- its loop has gone in steps from the start to its end, and at each position of a required
-- field of the type, as far as it is one of the first 64 required fields, one of the steps has
-- decoded a field.
pub pb_decode_noinit-HasRequired :
    (host : Host) (fuel fields dest : ℕ) (t u : Target)
    → IsTagged (host.program.fields_at fields)
    → pb_decode_noinit host (suc fuel) fields dest t ≡ (ok tt, u)
    → HasRequired host
        (pb_dec_submessage host fuel (pb_decode_noinit host fuel))
        fuel
        (host.fixed_count_size_at fuel)
        (host.program.fields_at fields)
        dest
        (record t { memory = store t.memory 4 (host.fixed_count_size_at fuel) 0 })
unfolding pb_decode_noinit
pb_decode_noinit-HasRequired host fuel fields dest t u tags e =
    decode_fields-HasRequired host (pb_dec_submessage host fuel (pb_decode_noinit host fuel)) fuel
      (host.fixed_count_size_at fuel) (host.program.fields_at fields) dest tags t u e
