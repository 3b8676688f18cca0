-- ===== src/Nanopb/Iter/Placed.antt =====
-- ios/Pods/nanopb/pb_common.c: `required_field_index` counts the required fields in front of the
-- iterator.
use spar_somnong.Common.{
  ℕ, zero, suc, ◌+◌, ◌≤◌, ◌<◌, ◌≡◌, refl, ◌∙◌, Bool, true, false, Bool-cases, inl, inr, ◌==◌, ltb,
  ltb→lt, ltb→le, if◌then◌else◌, List, [], ◌∷◌, length, arith,
}
use spar_somnong.Nanopb.Types.{PbField, pb_htype}
use spar_somnong.Nanopb.Htype
use spar_somnong.Nanopb.Iter.{
  PbFieldIter, field_at, current, iter_at_start, in_same_union, advance, pb_field_iter_next,
  pb_field_iter_begin, is_wanted, find_loop, pb_field_iter_find,
}
use spar_somnong.Nanopb.Iter.Search.{IsTagged, next-inside, next-end, pos-advance, start-advance}

abbrev pub is_required : PbField → Bool
is_required f = pb_htype f.type == Htype.required

abbrev pub one_if : Bool → ℕ
one_if b = if b then 1 else 0

-- The number of required fields in front of a position.
abbrev pub required_before : List PbField → ℕ → ℕ
required_before [] n = 0
required_before (f ∷ fs) zero = 0
required_before (f ∷ fs) (suc n) = one_if (is_required f) + required_before fs n

pub required_before-suc :
    (fields : List PbField) (p : ℕ)
    → p < length fields
    → required_before fields (suc p)
      ≡ required_before fields p + one_if (is_required (field_at fields p))
required_before-suc [] p lt = absurd (omega arith)
required_before-suc (f ∷ []) zero lt = omega arith
required_before-suc (f ∷ g ∷ fs) zero lt = omega arith
required_before-suc (f ∷ fs) (suc p) lt = omega (arith, required_before-suc fs p (omega arith))

pub required_before-next :
    (fields : List PbField) (p q : ℕ)
    → p < length fields
    → q ≡ suc p
    → required_before fields q ≡ required_before fields p + one_if (is_required (field_at fields p))
required_before-next fields p q lt e = rw e (required_before-suc fields p lt)

pub required_before_mono :
    (fields : List PbField) (p d : ℕ) → required_before fields p ≤ required_before fields (p + d)
required_before_mono [] p d = omega arith
required_before_mono (f ∷ fs) zero d = omega arith
required_before_mono (f ∷ fs) (suc p) d =
    let onward : suc p + d ≡ suc (p + d) = omega arith in
    rw onward (omega (arith, required_before_mono fs p d))

-- The iterator stands on a field of the table and counts right.
pub record IsPlaced (fields : List PbField) (it : PbFieldIter) : Type 0 where
  pub same : it.start ≡ fields
  pub inside : it.pos < length fields
  pub index : it.required_field_index ≡ required_before fields it.pos

pub iter_at_start-IsPlaced :
    (fields : List PbField) (dest : ℕ)
    → 0 < length fields
    → IsPlaced fields (iter_at_start fields dest)
iter_at_start-IsPlaced [] dest lt = absurd (omega arith)
iter_at_start-IsPlaced (f ∷ fs) dest lt = record { same = refl; inside = lt; index = refl }

-- A member of a union is not required.
union-optional : (prev cur : PbField) → in_same_union prev cur ≡ true → is_required prev ≡ false
unfolding in_same_union
union-optional prev cur h = ground arith

index-advance :
    (cur : PbField) (it : PbFieldIter)
    → (advance (current it) cur it).required_field_index
      ≡ it.required_field_index + one_if (is_required (current it))
unfolding advance
index-advance cur it = elim (Bool-cases (in_same_union (current it) cur)) [
  | inl e ↦ rw (e, union-optional (current it) cur e) (omega arith)
  | inr n ↦ elim (Bool-cases (is_required (current it))) [
    | inl e ↦ rw (n, e) refl
    | inr m ↦ rw (n, m) (omega arith)
  ]
]

module _ (fields : List PbField) (tags : IsTagged fields) where
  pub next-IsPlaced :
      (it : PbFieldIter) → IsPlaced fields it → IsPlaced fields (pb_field_iter_next it).1
  next-IsPlaced it placed =
      let on = placed.same in
      elim (Bool-cases (ltb (it.pos + 1) (length fields))) [
        | inl e ↦
            let more = ltb→lt (it.pos + 1) (length fields) e in
            let cur = field_at it.start (it.pos + 1) in
            let next = next-inside it (rw on tags) (rw on placed.inside) (rw on more) in
            let pos = pos-advance (current it) cur it in
            let here : current it ≡ field_at fields it.pos = rw on refl in
            rw next (record {
              same = start-advance (current it) cur it ∙ on;
              inside = rw pos more;
              index =
                  index-advance cur it
                  ∙ rw (pos, here, placed.index)
                      (omega (
                        arith,
                        required_before-next fields it.pos (it.pos + 1) placed.inside (omega arith),
                      ));
            })
        | inr n ↦
            let last : it.pos + 1 ≡ length fields =
              omega (arith, ltb→le (it.pos + 1) (length fields) n, placed.inside) in
            let next = next-end it (rw on tags) (rw on placed.inside) (rw on last) in
            rw (next, on)
              (iter_at_start-IsPlaced fields it.dest_struct (omega (arith, placed.inside)))
      ]

  find_loop-IsPlaced :
      (fuel tag from : ℕ) (it : PbFieldIter)
      → IsPlaced fields it
      → IsPlaced fields (find_loop fuel tag from it).1
  unfolding find_loop
  find_loop-IsPlaced zero tag from it placed = placed
  find_loop-IsPlaced (suc fuel) tag from it placed =
      let it' = (pb_field_iter_next it).1 in
      let next = next-IsPlaced it placed in
      elim (Bool-cases (is_wanted tag (current it))) [
        | inl e ↦ rw e placed
        | inr n ↦ elim (Bool-cases (it'.pos == from)) [
          | inl e ↦ rw (n, e) next
          | inr m ↦ rw (n, m) (find_loop-IsPlaced fuel tag from it' next)
        ]
      ]

  pub find-IsPlaced :
      (it : PbFieldIter) (tag : ℕ)
      → IsPlaced fields it
      → IsPlaced fields (pb_field_iter_find it tag).1
  unfolding pb_field_iter_find
  find-IsPlaced it tag placed = find_loop-IsPlaced (suc (length it.start)) tag it.pos it placed

  -- On a table without a tag 0, from an iterator on a field of it whose required_field_index
  -- counts the required fields in front, `pb_field_iter_next` and `pb_field_iter_find` lead to
  -- such an iterator again, also when they wrap around or find nothing, and so does
  -- `pb_field_iter_begin` for any struct.
  pub pb_field_iter-IsPlaced :
      (it : PbFieldIter) (tag dest : ℕ)
      → IsPlaced fields it
      → IsPlaced fields (pb_field_iter_begin fields dest).1
        × IsPlaced fields (pb_field_iter_next it).1
        × IsPlaced fields (pb_field_iter_find it tag).1
  unfolding pb_field_iter_begin
  pb_field_iter-IsPlaced it tag dest placed = (
    iter_at_start-IsPlaced fields dest (omega (arith, placed.inside)),
    next-IsPlaced it placed,
    find-IsPlaced it tag placed,
  )
