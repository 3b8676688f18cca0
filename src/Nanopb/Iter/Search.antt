-- ===== src/Nanopb/Iter/Search.antt =====
-- The iterator goes round the descriptor array, and `pb_field_iter_find` finds what is in it.
use spar_somnong.Common.{
  ℕ, zero, suc, ◌+◌, ◌≤◌, ◌<◌, ◌≡◌, ◌≢◌, ◌⊎◌, inl, inr, refl, sym, ◌∙◌, ltb, ltb→lt, ltb→le, ==_iff,
  true, false, Bool-cases, List, [], ◌∷◌, length, All, ◌==◌, ne→==, arith,
}
use spar_somnong.Nanopb.Types.{PbField}
use spar_somnong.Nanopb.Iter.Wanted.{Search, found, missing, is_wanted→IsWanted, not-IsWanted}
use spar_somnong.Nanopb.Iter.{
  PbFieldIter, field_at, current, iter_at_start, advance, pb_field_iter_next, is_wanted, find_loop,
  pb_field_iter_find,
}

-- Zero is the tag of the terminator alone.
abbrev pub IsTagged : List PbField → Type 0
IsTagged fields = All (λ f. f.tag ≢ 0) fields

pub field_at-tag :
    (fields : List PbField) (i : ℕ)
    → IsTagged fields
    → i < length fields
    → (field_at fields i).tag ≢ 0
field_at-tag [] i h lt = absurd (omega arith)
field_at-tag (f ∷ fs) zero h lt = h.0
field_at-tag (f ∷ fs) (suc i) h lt = field_at-tag fs i h.1 (omega arith)

field_at-end : (fields : List PbField) (i : ℕ) → length fields ≤ i → (field_at fields i).tag ≡ 0
field_at-end [] i le = refl
field_at-end (f ∷ fs) zero le = absurd (omega arith)
field_at-end (f ∷ fs) (suc i) le = field_at-end fs i (omega arith)

module _ (it : PbFieldIter) (tagged : IsTagged it.start) (inside : it.pos < length it.start) where
  -- Before the last field the iterator goes to the next one.
  pub next-inside :
      it.pos + 1 < length it.start
      → pb_field_iter_next it ≡ (true, advance (current it) (field_at it.start (it.pos + 1)) it)
  unfolding pb_field_iter_next
  next-inside more =
      let here : ((current it).tag == 0) ≡ false =
        ne→== _ _ (field_at-tag it.start it.pos tagged inside) in
      let there : ((field_at it.start (it.pos + 1)).tag == 0) ≡ false =
        ne→== _ _ (field_at-tag it.start (it.pos + 1) tagged more) in
      rw (here, there) refl

  -- Behind the last field it goes back to the first one.
  pub next-end :
      it.pos + 1 ≡ length it.start
      → pb_field_iter_next it ≡ (false, iter_at_start it.start it.dest_struct)
  unfolding pb_field_iter_next
  next-end last =
      let here : ((current it).tag == 0) ≡ false =
        ne→== _ _ (field_at-tag it.start it.pos tagged inside) in
      let there : (field_at it.start (it.pos + 1)).tag ≡ 0 =
        field_at-end it.start (it.pos + 1) (omega arith) in
      rw (here, there) refl

pub pos-advance : (prev cur : PbField) (it : PbFieldIter) → (advance prev cur it).pos ≡ it.pos + 1
unfolding advance
pos-advance prev cur it = ground arith

pub start-advance : (prev cur : PbField) (it : PbFieldIter) → (advance prev cur it).start ≡ it.start
unfolding advance
start-advance prev cur it = ground arith

-- Once the turn is complete every position has been passed.
around : (from p i : ℕ) → from ≡ p → (from ≤ i) ⊎ (i < p)
around from p i e = elim (Bool-cases (ltb i from)) [
  | inl l ↦ inr (omega (arith, ltb→lt i from l))
  | inr g ↦ inl (ltb→le i from g)
]

module _ (fields : List PbField) (tagged : IsTagged fields) (tag from : ℕ)
    (in_table : from < length fields) where
  abbrev Unwanted : ℕ → Type 0
  Unwanted i = is_wanted tag (field_at fields i) ≡ false

  -- The field that the iterator stands on is one more that is not wanted.
  module _ (it : PbFieldIter) (same : it.start ≡ fields)
      (here : is_wanted tag (current it) ≡ false) where
    Unwanted-here : (i : ℕ) → i ≡ it.pos → Unwanted i
    Unwanted-here i e = rw (e, sym same) here

    Unwanted-before : (i : ℕ) → (i < it.pos → Unwanted i) → i < it.pos + 1 → Unwanted i
    Unwanted-before i seen lt = elim (Bool-cases (ltb i it.pos)) [
      | inl l ↦ seen (ltb→lt i it.pos l)
      | inr g ↦ Unwanted-here i (omega (arith, ltb→le i it.pos g))
    ]

    Unwanted-turned :
        (i : ℕ)
        → ((from ≤ i) ⊎ (i < it.pos) → Unwanted i)
        → (from ≤ i) ⊎ (i < it.pos + 1)
        → Unwanted i
    Unwanted-turned i seen (inl ge) = seen (inl ge)
    Unwanted-turned i seen (inr lt) = Unwanted-before i (λ l. seen (inr l)) lt

  not_yet : (p q : ℕ) → p < from → q ≡ p + 1 → (q == from) ≡ false → q < from
  not_yet p q lt e ne = ground arith

  -- The search behind its turn: from the first field to where it began.
  find_loop-turned :
      (fuel : ℕ) (it : PbFieldIter)
      → it.start ≡ fields
      → it.pos < from
      → from ≤ it.pos + fuel
      → ((i : ℕ) → i < length fields → (from ≤ i) ⊎ (i < it.pos) → Unwanted i)
      → Search fields tag (find_loop fuel tag from it)
  unfolding find_loop
  find_loop-turned zero it same before enough seen = absurd (omega arith)
  find_loop-turned (suc fuel) it same before enough seen =
      elim (Bool-cases (is_wanted tag (current it))) [
        | inl e ↦ rw e (found refl same (is_wanted→IsWanted tag (current it) e))
        | inr n ↦
            let inside : it.pos + 1 < length it.start = rw same (omega arith) in
            let next = next-inside it (rw same tagged) (omega arith) inside in
            let step = advance (current it) (field_at it.start (it.pos + 1)) it in
            let pos : step.pos ≡ it.pos + 1 = pos-advance _ _ it in
            let start : step.start ≡ fields = start-advance _ _ it ∙ same in
            rw (n, next)
              (elim (Bool-cases (step.pos == from)) [
                | inl e ↦ rw e (
                    missing refl (λ i lt. not-IsWanted tag (field_at fields i) (
                      Unwanted-turned it same n i (seen i lt) (
                        around from (it.pos + 1) i
                          (omega (arith, (==_iff step.pos from).0 e, pos))))))
                | inr ne ↦ rw ne (
                    find_loop-turned fuel step start (not_yet it.pos step.pos before pos ne)
                      (omega (arith, pos))
                      (λ i lt w. Unwanted-turned it same n i (seen i lt) (rw pos at w)))
              ])
      ]

  seen_round :
      (p : ℕ)
      → ((i : ℕ) → from ≤ i → i < p + 1 → Unwanted i)
      → p + 1 ≡ length fields
      → (i : ℕ) → i < length fields
      → (from ≤ i) ⊎ (i < 0)
      → Unwanted i
  seen_round p seen top i lt (inl ge) = seen i ge (omega arith)
  seen_round p seen top i lt (inr l) = absurd (omega arith)

  -- The search up to the last field.
  find_loop-ahead :
      (fuel : ℕ) (it : PbFieldIter)
      → it.start ≡ fields
      → from ≤ it.pos
      → it.pos < length fields
      → length fields + from ≤ it.pos + fuel
      → ((i : ℕ) → from ≤ i → i < it.pos → Unwanted i)
      → Search fields tag (find_loop fuel tag from it)
  unfolding find_loop
  find_loop-ahead zero it same behind inside enough seen = absurd (omega arith)
  find_loop-ahead (suc fuel) it same behind inside enough seen =
      elim (Bool-cases (is_wanted tag (current it))) [
        | inl e ↦ rw e (found refl same (is_wanted→IsWanted tag (current it) e))
        | inr n ↦
            let seen' : (i : ℕ) → from ≤ i → i < it.pos + 1 → Unwanted i =
              λ i ge. Unwanted-before it same n i (seen i ge) in
            elim (Bool-cases (ltb (it.pos + 1) (length fields))) [
              | inl more ↦
                  let next =
                    next-inside it (rw same tagged) (rw same inside)
                      (rw same (ltb→lt (it.pos + 1) (length fields) more)) in
                  let step = advance (current it) (field_at it.start (it.pos + 1)) it in
                  let pos : step.pos ≡ it.pos + 1 = pos-advance _ _ it in
                  let start : step.start ≡ fields = start-advance _ _ it ∙ same in
                  let on : (step.pos == from) ≡ false = ne→== _ _ (λ e. omega (arith, pos)) in
                  rw (n, next, on)
                    (find_loop-ahead fuel step start (omega (arith, pos))
                      (omega (arith, pos, ltb→lt (it.pos + 1) (length fields) more))
                      (omega (arith, pos)) (λ i ge lt. seen' i ge (rw pos at lt)))
              | inr last ↦
                  let top : it.pos + 1 ≡ length fields =
                    omega (arith, ltb→le (it.pos + 1) (length fields) last) in
                  let next = next-end it (rw same tagged) (rw same inside) (rw same top) in
                  let round = iter_at_start it.start it.dest_struct in
                  rw (n, next)
                    (elim (Bool-cases (0 == from)) [
                      | inl e ↦
                          let zero_from = (==_iff 0 from).0 e in
                          rw e (
                            missing refl (λ i lt.
                              not-IsWanted tag (field_at fields i)
                                (seen' i (omega arith) (omega arith))))
                      | inr ne ↦ rw ne (
                          find_loop-turned fuel round same (ground arith) (omega arith)
                            (seen_round it.pos seen' top))
                    ])
            ]
      ]

-- In a table whose fields have tags other than zero, from any field of it, `pb_field_iter_find`
-- returns true at a field with the tag that is no extension range, or returns false and no
-- field of the table is one.
pub pb_field_iter_find-Search :
    (it : PbFieldIter) (tag : ℕ)
    → IsTagged it.start
    → it.pos < length it.start
    → Search it.start tag (pb_field_iter_find it tag)
unfolding pb_field_iter_find
pb_field_iter_find-Search it tag tagged inside =
    find_loop-ahead it.start tagged tag it.pos inside (suc (length it.start)) it refl (omega arith)
      inside (omega arith) (λ i ge lt. absurd (omega arith))
