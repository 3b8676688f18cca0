-- ===== src/Nanopb/Encode/EndsMessage.antt =====
-- `pb_encode` comes to an end on messages whose types do not contain themselves.
use spar_somnong.Common.{
  ℕ, zero, suc, ◌+◌, ◌<◌, ◌≤◌, ◌≡◌, ◌≢◌, refl, Bool, true, false, Bool-cases, inl, inr, ◌==◌, ltb,
  ltb→lt, ltb→le, if◌then◌else◌, List, [], ◌∷◌, length, All, Outcome, ok, failed, fault,
  out_of_fuel, arith, ◌∙◌,
}
use spar_somnong.Nanopb.Types.{PbField, pb_ltype}
use spar_somnong.Nanopb.Ltype
use spar_somnong.Nanopb.Memory.{Memory, Program}
use spar_somnong.Nanopb.Iter.{PbFieldIter, field_at, current, pb_field_iter_next}
use spar_somnong.Nanopb.Iter.Search.{IsTagged, next-inside, next-end, pos-advance, start-advance}
use spar_somnong.Nanopb.Encode.Defaults.{unless_false, all_default}
use spar_somnong.Nanopb.Encode.Ends.{Ends}

-- A field of a message type of rank `r`: no extension range, and a submessage has a lower rank.
pub record IsBelow (rank : ℕ → ℕ) (r : ℕ) (f : PbField) : Type 0 where
  pub plain : (pb_ltype f.type == Ltype.extension) ≡ false
  pub inner : (pb_ltype f.type == Ltype.submessage) ≡ true → rank f.ptr < r

-- No message type contains itself or extensions, and the user's callbacks come to an end.
pub record IsRanked (program : Program) : Type 0 where
  pub rank : ℕ → ℕ
  pub has_tags : (a : ℕ) → IsTagged (program.fields_at a)
  pub below : (a : ℕ) → All (IsBelow rank (rank a)) (program.fields_at a)
  pub callbacks :
      (function : ℕ) (field : PbField) (arg : ℕ) → Ends (program.encode_callback function field arg)

pub field_at-IsBelow :
    (rank : ℕ → ℕ) (r : ℕ) (fields : List PbField) (i : ℕ)
    → All (IsBelow rank r) fields
    → i < length fields
    → IsBelow rank r (field_at fields i)
field_at-IsBelow rank r [] i h lt = absurd (omega arith)
field_at-IsBelow rank r (f ∷ fs) zero h lt = h.0
field_at-IsBelow rank r (f ∷ fs) (suc i) h lt = field_at-IsBelow rank r fs i h.1 (omega arith)

-- A step of the iterator: the turn is over, or the next field is in the table.
pub data Turn (it : PbFieldIter) : Type 0 where
  over : (pb_field_iter_next it).0 ≡ false → Turn it
  onward :
      (pb_field_iter_next it).0 ≡ true
      → (pb_field_iter_next it).1.start ≡ it.start
      → (pb_field_iter_next it).1.pos ≡ it.pos + 1
      → it.pos + 1 < length it.start
      → Turn it

pub turn : (it : PbFieldIter) → IsTagged it.start → it.pos < length it.start → Turn it
turn it tags inside = elim (Bool-cases (ltb (it.pos + 1) (length it.start))) [
  | inl l ↦
      let more = ltb→lt (it.pos + 1) (length it.start) l in
      let e = next-inside it tags inside more in
      onward (rw e refl) (rw e (start-advance _ _ it)) (rw e (pos-advance _ _ it)) more
  | inr g ↦
      let e = next-end it tags inside (omega (arith, ltb→le (it.pos + 1) (length it.start) g)) in
      over (rw e refl)
]

abbrev pub Answers : Outcome Bool → Type 0
Answers o = o ≢ out_of_fuel

pub either : (b : Bool) (x y : Outcome Bool) → Answers x → Answers y → Answers (if b then x else y)
either true x y p q = p
either false x y p q = q

pub answer : (b : Bool) → Answers (ok b)
answer b = λ p. cc

unless_false-Answers :
    (o rest : Outcome Bool) → Answers o → Answers rest → Answers (unless_false o rest)
unless_false-Answers (ok true) rest h k = k
unless_false-Answers (ok false) rest h k = λ p. cc
unless_false-Answers failed rest h k = λ p. cc
unless_false-Answers fault rest h k = λ p. cc
unless_false-Answers out_of_fuel rest h k = absurd (h refl)

module _ (program : Program) (mem : Memory) (ranked : IsRanked program) where
  pub all_default-Answers :
      (check : PbField → ℕ → Outcome Bool) (a rounds : ℕ) (it : PbFieldIter)
      → ((f : PbField) → IsBelow ranked.rank (ranked.rank a) f → (p : ℕ) → Answers (check f p))
      → it.start ≡ program.fields_at a
      → it.pos < length it.start
      → length it.start ≤ it.pos + rounds
      → Answers (all_default check rounds it)
  unfolding all_default
  all_default-Answers check a zero it h same inside enough = absurd (omega arith)
  all_default-Answers check a (suc rounds) it h same inside enough =
      let tags : IsTagged it.start = rw same (ranked.has_tags a) in
      let here =
        field_at-IsBelow ranked.rank (ranked.rank a) it.start it.pos (rw same (ranked.below a))
          inside in
      unless_false-Answers _ _ (h (current it) here it.p_data) (elim (turn it tags inside) [
        | over e ↦ rw e (answer true)
        | onward e st ps more ↦ rw e (
            all_default-Answers check a rounds (pb_field_iter_next it).1 h (st ∙ same)
              (rw (st, ps) more) (rw (st, ps) (omega arith)))
      ])
