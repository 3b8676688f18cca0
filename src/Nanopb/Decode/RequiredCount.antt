-- ===== src/Nanopb/Decode/RequiredCount.antt =====
-- ios/Pods/nanopb/pb_decode.c: the number of required fields that `pb_decode_noinit` checks.
use spar_somnong.Common.{
  ℕ, zero, suc, ◌+◌, ◌≤◌, ◌≡◌, refl, false, Bool-cases, inl, inr, ◌==◌, ltb, ltb→lt, ltb→le,
  if◌then◌else◌, List, length, ne→==, arith,
}
use spar_somnong.Nanopb.Types.{PbField, pb_htype, pb_max_required_fields}
use spar_somnong.Nanopb.Htype
use spar_somnong.Nanopb.Iter.{PbFieldIter, field_at, current, advance}
use spar_somnong.Nanopb.Iter.Search.{IsTagged, field_at-tag, next-inside, next-end, pos-advance}
use spar_somnong.Nanopb.Iter.Placed.{
  one_if, required_before, required_before-next, IsPlaced, next-IsPlaced,
}
use spar_somnong.Nanopb.Decode.Required.{seek_end, required_count}

-- All required fields of a table, as far as they are checked.
abbrev pub checked_fields : List PbField → ℕ
checked_fields fields =
    let total = required_before fields (length fields) in
    if ltb pb_max_required_fields total then pb_max_required_fields else total

module _ (fields : List PbField) (tags : IsTagged fields) where
  -- What the loop to the end of the table gives.
  abbrev AtEnd : ℕ × ℕ × PbFieldIter → Type 0
  AtEnd r =
      (r.0 + one_if (pb_htype r.1 == Htype.required) ≡ required_before fields (length fields))
      × (((current r.2).tag == 0) ≡ false)

  seek_end-AtEnd :
      (rounds : ℕ) (it : PbFieldIter)
      → IsPlaced fields it
      → length fields ≤ it.pos + rounds
      → AtEnd (seek_end rounds it)
  unfolding seek_end
  seek_end-AtEnd zero it placed enough = absurd (omega (arith, placed.inside))
  seek_end-AtEnd (suc rounds) it placed enough =
      let on = placed.same in
      elim (Bool-cases (ltb (it.pos + 1) (length fields))) [
        | inl e ↦
            let more = ltb→lt (it.pos + 1) (length fields) e in
            let next = next-inside it (rw on tags) (rw on placed.inside) (rw on more) in
            let cur = field_at it.start (it.pos + 1) in
            let onward : IsPlaced fields (advance (current it) cur it) =
              rw next at (next-IsPlaced fields tags it placed) in
            rw next (
              seek_end-AtEnd rounds (advance (current it) cur it) onward
                (omega (arith, pos-advance (current it) cur it)))
        | inr n ↦
            let last : it.pos + 1 ≡ length fields =
              omega (arith, ltb→le (it.pos + 1) (length fields) n, placed.inside) in
            let next = next-end it (rw on tags) (rw on placed.inside) (rw on last) in
            let here : current it ≡ field_at fields it.pos = rw on refl in
            let first : ((field_at fields 0).tag == 0) ≡ false =
              ne→== _ _ (field_at-tag fields 0 tags (omega (arith, placed.inside))) in
            rw (next, placed.index, here, on)
              (
                omega (
                  arith,
                  required_before-next fields it.pos (length fields) placed.inside (omega arith),
                ),
                first,
              )
      ]

  -- The count is the number of required fields of the table, or 64 if there are more.
  pub required_count_lem :
      (it : PbFieldIter) → IsPlaced fields it → required_count it ≡ checked_fields fields
  unfolding required_count
  required_count_lem it placed =
      let ended = seek_end-AtEnd (length it.start) it placed (rw placed.same (omega arith)) in
      let last = seek_end (length it.start) it in
      elim (Bool-cases (pb_htype last.1 == Htype.required)) [
        | inl e ↦
            let whole : last.0 + 1 ≡ required_before fields (length fields) = rw e at ended.0 in
            rw (e, ended.1, whole) refl
        | inr n ↦
            let whole : last.0 + 0 ≡ required_before fields (length fields) = rw n at ended.0 in
            let all : last.0 ≡ required_before fields (length fields) = omega (arith, whole) in
            rw (n, all) refl
      ]
