-- ===== src/Nanopb/Decode/Stays.antt =====
-- ios/Pods/nanopb: the iterator stays on its descriptor array, and what a search for extensions finds.
use spar_somnong.Common.{
  ℕ, zero, suc, ◌+◌, ◌≡◌, refl, ◌∙◌, false, Bool-cases, inl, inr, ◌==◌, List, [], ◌∷◌, length, All,
}
use spar_somnong.Nanopb.Types.{PbField, pb_ltype}
use spar_somnong.Nanopb.Ltype
use spar_somnong.Nanopb.Iter.{
  PbFieldIter, field_at, current, pb_field_iter_next, is_wanted, find_loop, pb_field_iter_find,
}
use spar_somnong.Nanopb.Iter.Search.{start-advance}
use spar_somnong.Nanopb.Encode.EndsMessage.{IsBelow}
use spar_somnong.Nanopb.Decode.Field.{find_extension_loop, find_extension_field}

-- The iterator stays on its descriptor array.
pub start-next : (it : PbFieldIter) → (pb_field_iter_next it).1.start ≡ it.start
unfolding pb_field_iter_next
start-next it = elim (Bool-cases ((current it).tag == 0)) [
  | inl e ↦ rw e refl
  | inr n ↦ elim (Bool-cases ((field_at it.start (it.pos + 1)).tag == 0)) [
    | inl e ↦ rw (n, e) refl
    | inr m ↦ rw (n, m) (start-advance _ _ it)
  ]
]

start-find_loop :
    (fuel tag from : ℕ) (it : PbFieldIter) → (find_loop fuel tag from it).1.start ≡ it.start
unfolding find_loop
start-find_loop zero tag from it = refl
start-find_loop (suc fuel) tag from it = elim (Bool-cases (is_wanted tag (current it))) [
  | inl e ↦ rw e refl
  | inr n ↦ elim (Bool-cases ((pb_field_iter_next it).1.pos == from)) [
    | inl e ↦ rw (n, e) (start-next it)
    | inr m ↦ rw (n, m) (start-find_loop fuel tag from (pb_field_iter_next it).1 ∙ start-next it)
  ]
]

pub start-find : (it : PbFieldIter) (tag : ℕ) → (pb_field_iter_find it tag).1.start ≡ it.start
unfolding pb_field_iter_find
start-find it tag = start-find_loop (suc (length it.start)) tag it.pos it

-- The terminator has no submessage, so it may stand in any message type.
pub field_at-IsBelow_any :
    (rank : ℕ → ℕ) (r : ℕ) (fields : List PbField) (i : ℕ)
    → All (IsBelow rank r) fields
    → IsBelow rank r (field_at fields i)
unfolding pb_ltype
field_at-IsBelow_any rank r [] i h = record { plain = refl; inner = λ e. absurd (cc e) }
field_at-IsBelow_any rank r (f ∷ fs) zero h = h.0
field_at-IsBelow_any rank r (f ∷ fs) (suc i) h = field_at-IsBelow_any rank r fs i h.1

-- No field is an extension range.
abbrev pub IsPlain : List PbField → Type 0
IsPlain fields = All (λ f. (pb_ltype f.type == Ltype.extension) ≡ false) fields

pub below-IsPlain :
    (rank : ℕ → ℕ) (r : ℕ) (fields : List PbField) → All (IsBelow rank r) fields → IsPlain fields
below-IsPlain rank r [] h = tt
below-IsPlain rank r (f ∷ fs) h = (h.0.plain, below-IsPlain rank r fs h.1)

field_at-plain :
    (fields : List PbField) (i : ℕ)
    → IsPlain fields
    → (pb_ltype (field_at fields i).type == Ltype.extension) ≡ false
unfolding pb_ltype
field_at-plain [] i h = refl
field_at-plain (f ∷ fs) zero h = h.0
field_at-plain (f ∷ fs) (suc i) h = field_at-plain fs i h.1

-- A table without extension ranges has none to find.
find_extension_loop-none :
    (rounds from : ℕ) (it : PbFieldIter)
    → IsPlain it.start
    → ((find_extension_loop rounds from it).0 ≡ false)
      × ((find_extension_loop rounds from it).1.start ≡ it.start)
unfolding find_extension_loop
find_extension_loop-none zero from it h = (refl, refl)
find_extension_loop-none (suc rounds) from it h =
    let here = field_at-plain it.start it.pos h in
    let it' = (pb_field_iter_next it).1 in
    let more = find_extension_loop-none rounds from it' (rw (start-next it) h) in
    elim (Bool-cases (it'.pos == from)) [
      | inl e ↦ rw (here, e) (refl, start-next it)
      | inr n ↦ rw (here, n) (more.0, more.1 ∙ start-next it)
    ]

pub find_extension_field-none :
    (it : PbFieldIter)
    → IsPlain it.start
    → ((find_extension_field it).0 ≡ false) × ((find_extension_field it).1.start ≡ it.start)
unfolding find_extension_field
find_extension_field-none it h = find_extension_loop-none (suc (length it.start)) it.pos it h
