-- ===== src/Nanopb/Decode/Tracked.antt =====
-- ios/Pods/nanopb/pb_decode.c: the bitmap of the decode loop holds the required fields that were
-- decoded, as an invariant of its steps.
use spar_somnong.Common.{
  ℕ, ◌+◌, ◌-◌, ◌≤◌, ◌<◌, ◌≡◌, refl, ◌∙◌, true, Bool-cases, inl, inr, ◌&&◌, ◌==◌, ==_iff, ==_refl,
  ltb, ltb→lt, ltb→le, List, [], ◌∷◌, length, All, arith,
}
use spar_somnong.Nanopb.Types.{PbField, pb_max_required_fields}
use spar_somnong.Nanopb.Iter.{field_at, pb_field_iter_find}
use spar_somnong.Nanopb.Iter.Search.{IsTagged}
use spar_somnong.Nanopb.Iter.Placed.{
  is_required, required_before, required_before-next, required_before_mono, IsPlaced, find-IsPlaced,
}
use spar_somnong.Nanopb.Decode.Target.{Target}
use spar_somnong.Nanopb.Decode.Numbers.{FieldDecoder}
use spar_somnong.Nanopb.Decode.Host.{Host}
use spar_somnong.Nanopb.Decode.Message.{Scan, decode_tagged}
use spar_somnong.Nanopb.Decode.RequiredSeen.{marks, contains}
use spar_somnong.Nanopb.Decode.RequiredCount.{checked_fields}
use spar_somnong.Nanopb.Decode.ReturnsScan.{mark_at, Kept, unknown_field-Post, known_field-Post}
use spar_somnong.Nanopb.Decode.Reaches.{Reaches, at_start, at_eof, decoded, skipped}

pub contains-cons : (q p : ℕ) (ps : List ℕ) → contains q ps ≡ true → contains q (p ∷ ps) ≡ true
contains-cons q p ps h = elim (Bool-cases (p == q)) [ inl e ↦ rw e refl | inr n ↦ rw n h ]

-- Behind a required field the count is larger.
pub required_before-lt :
    (fields : List PbField) (p q : ℕ)
    → p < q
    → p < length fields
    → is_required (field_at fields p) ≡ true
    → required_before fields p < required_before fields q
required_before-lt fields p q lt inside req =
    let step : required_before fields (p + 1) ≡ required_before fields p + 1 =
      required_before-next fields p (p + 1) inside (omega arith) ∙ rw req refl in
    let whole : p + 1 + (q - (p + 1)) ≡ q = omega arith in
    let further : required_before fields (p + 1) ≤ required_before fields q =
      rw whole at (required_before_mono fields (p + 1) (q - (p + 1))) in
    omega (arith, step, further)

-- The index of a required field belongs to no other one.
pub required_before_unique :
    (fields : List PbField) (p q : ℕ)
    → p < length fields
    → q < length fields
    → is_required (field_at fields p) ≡ true
    → is_required (field_at fields q) ≡ true
    → required_before fields q ≡ required_before fields p
    → q ≡ p
required_before_unique fields p q hp hq rp rq e = elim (Bool-cases (ltb p q)) [
  | inl l ↦ absurd (omega (arith, e, required_before-lt fields p q (ltb→lt p q l) hp rp))
  | inr g ↦ elim (Bool-cases (ltb q p)) [
    | inl l ↦ absurd (omega (arith, e, required_before-lt fields q p (ltb→lt q p l) hq rq))
    | inr k ↦ omega (arith, ltb→le p q g, ltb→le q p k)
  ]
]

module _ (fields : List PbField) (tags : IsTagged fields) where
  -- A field that was decoded and is the required field of an index.
  pub record Origin (visited : List ℕ) (j : ℕ) : Type 0 where
    pub position : ℕ
    pub was_decoded : contains position visited ≡ true
    pub inside : position < length fields
    pub required : is_required (field_at fields position) ≡ true
    pub has_index : required_before fields position ≡ j

  -- The bitmap holds indices of required fields that were decoded.
  pub record Tracked (visited : List ℕ) (sc : Scan) : Type 0 where
    pub placed : IsPlaced fields sc.it
    pub marked : List ℕ
    pub seen : sc.fields_seen ≡ marks marked
    pub below : All (λ i. i < checked_fields fields) marked
    pub origin : (j : ℕ) → contains j marked ≡ true → Origin visited j

  older : (visited : List ℕ) (p j : ℕ) → Origin visited j → Origin (p ∷ visited) j
  older visited p j o = record {
    position = o.position;
    was_decoded = contains-cons o.position p visited o.was_decoded;
    inside = o.inside;
    required = o.required;
    has_index = o.has_index;
  }

  checked-lt :
      (p : ℕ)
      → p < length fields
      → is_required (field_at fields p) ≡ true
      → ltb (required_before fields p) pb_max_required_fields ≡ true
      → required_before fields p < checked_fields fields
  checked-lt p inside req small =
      let total = required_before fields (length fields) in
      let lt : required_before fields p < total =
        required_before-lt fields p (length fields) inside inside req in
      let low : required_before fields p < 64 = ltb→lt (required_before fields p) 64 small in
      elim (Bool-cases (ltb pb_max_required_fields total)) [ inl e ↦ rw e low | inr n ↦ rw n lt ]

  -- The field at `p` is decoded.
  Tracked-decoded :
      (visited : List ℕ) (p : ℕ) (sc sc' : Scan)
      → Tracked visited sc
      → p < length fields
      → Kept fields (mark_at fields p sc.fields_seen) sc'
      → Tracked (p ∷ visited) sc'
  Tracked-decoded visited p sc sc' tracked inside kept =
      let index = required_before fields p in
      let checked = is_required (field_at fields p) && ltb index pb_max_required_fields in
      elim (Bool-cases checked) [
        | inl e ↦
            let req : is_required (field_at fields p) ≡ true = ground arith in
            let small : ltb index pb_max_required_fields ≡ true = ground arith in
            record {
              placed = kept.0;
              marked = index ∷ tracked.marked;
              seen = kept.1 ∙ rw (e, tracked.seen) refl;
              below = (checked-lt p inside req small, tracked.below);
              origin = λ j h. elim (Bool-cases (index == j)) [
                | inl same ↦ record {
                  position = p;
                  was_decoded = rw (==_refl p) refl;
                  inside = inside;
                  required = req;
                  has_index = (==_iff index j).0 same;
                }
                | inr other ↦ older visited p j (tracked.origin j (rw other at h))
              ];
            }
        | inr n ↦ record {
          placed = kept.0;
          marked = tracked.marked;
          seen = kept.1 ∙ rw n tracked.seen;
          below = tracked.below;
          origin = λ j h. older visited p j (tracked.origin j h);
        }
      ]

  module _ (host : Host) (submessage : FieldDecoder) (fuel size_at : ℕ) (from : Scan)
      (start : Target) where
    pub Reaches-Tracked :
        (visited : List ℕ) (sc : Scan) (t : Target)
        → Tracked [] from
        → Reaches host submessage fuel size_at from start visited sc t
        → Tracked visited sc
    unfolding decode_tagged
    Reaches-Tracked _ _ _ first at_start = first
    Reaches-Tracked visited sc _ first (at_eof s reach e) = Reaches-Tracked visited sc _ first reach
    Reaches-Tracked _ _ _ first
          (decoded {ps} {sc} {t} wire_type tag eof s sc' u reach e found step) =
        let tracked = Reaches-Tracked ps sc t first reach in
        let it = (pb_field_iter_find sc.it tag).1 in
        let placed = find-IsPlaced fields tags sc.it tag tracked.placed in
        let known = rw found at step in
        Tracked-decoded ps it.pos sc sc' tracked placed.inside (
          rw known at (
            known_field-Post fields tags host submessage fuel size_at wire_type
              (record sc { it = it }) (record t { stream = s }) placed))
    Reaches-Tracked _ _ _ first
          (skipped {ps} {sc} {t} wire_type tag eof s sc' u reach e found step) =
        let tracked = Reaches-Tracked ps sc t first reach in
        let it = (pb_field_iter_find sc.it tag).1 in
        let placed = find-IsPlaced fields tags sc.it tag tracked.placed in
        let unknown = rw found at step in
        let kept : Kept fields sc.fields_seen sc' = rw unknown at (
          unknown_field-Post fields tags host submessage fuel size_at wire_type tag
            (record sc { it = it }) (record t { stream = s }) placed) in
        record {
          placed = kept.0;
          marked = tracked.marked;
          seen = kept.1 ∙ tracked.seen;
          below = tracked.below;
          origin = tracked.origin;
        }
