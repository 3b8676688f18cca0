-- ===== src/Nanopb/Decode/AllocateBounds.antt =====
-- The size that `allocate_field` asks for is never the wrapped one.
use spar_somnong.Common.{
  ℕ, ◌-◌, ◌*◌, ◌/◌, ◌^◌, ◌<◌, ◌≤◌, ◌≡◌, refl, ◌⊎◌, inl, inr, true, false, Bool-cases, ◌==◌, ltb,
  ltb→lt, ltb→le, arith, ◌+◌, ◌%◌, ◌∙◌, Option, none, some, Outcome, ok,
}
use native.Mathlib.Nat.{div-lt_iff_lt-mul, le-div_iff_mul-le, mul-le-mul, mod-eq_of_lt}
use spar_somnong.Nanopb.Types.{u64, size_too_large, realloc_failed}
use spar_somnong.Nanopb.Memory.{Memory, load_pointer}
use spar_somnong.Nanopb.Decode.Target.{Target, refuse, store}
use spar_somnong.Nanopb.Decode.Stored.{load-store, store-below, store-above}
use spar_somnong.Nanopb.Decode.Allocate.{Realloc, is_too_large, reallocated, allocate_field}

module _ (data_size array_size : ℕ) (pos : 0 < array_size) where
  is_too_large→lt : is_too_large data_size array_size ≡ true → 2 ^ 64 ≤ array_size * data_size
  unfolding is_too_large
  is_too_large→lt h =
      let q : ltb ((2 ^ 64 - 1) / array_size) data_size ≡ true = ground arith in
      omega (arith, (div-lt_iff_lt-mul pos).0 (ltb→lt _ _ q))

  is_too_large→le : is_too_large data_size array_size ≡ false → array_size * data_size < 2 ^ 64
  unfolding is_too_large
  is_too_large→le h = elim (Bool-cases (ltb ((2 ^ 64 - 1) / array_size) data_size)) [
    | inl q ↦
        let small : (data_size ≤ 2 ^ 32 - 1) × (array_size ≤ 2 ^ 32 - 1) = ground arith in
        omega (arith, mul-le-mul small.1 small.0)
    | inr q ↦ omega (arith, (le-div_iff_mul-le pos).0 (ltb→le _ _ q))
  ]

-- What `realloc` gave is what the call does: it fails on a null pointer, and otherwise the new
-- pointer stands at `p_data`, and nothing else of the memory that `realloc` left has changed.
abbrev pub Takes : ℕ → Target → Option (ℕ × Memory) → Outcome (Unit {0}) × Target → Type 0
Takes p_data t none r = r ≡ refuse realloc_failed t
Takes p_data t (some (ptr, mem)) r =
    (r.0 ≡ ok tt)
    × (r.1.stream ≡ t.stream)
    × (load_pointer r.1.memory p_data ≡ ptr % 2 ^ 64)
    × ((x : ℕ) → (x < p_data) ⊎ (p_data + 8 ≤ x) → r.1.memory x ≡ mem x)

elsewhere :
    (mem : Memory) (p_data ptr x : ℕ)
    → (x < p_data) ⊎ (p_data + 8 ≤ x)
    → store mem 8 p_data ptr x ≡ mem x
elsewhere mem p_data ptr x (inl below) = store-below mem 8 p_data ptr x below
elsewhere mem p_data ptr x (inr above) = store-above mem 8 p_data ptr x (omega arith)

reallocated-Takes :
    (p_data : ℕ) (t : Target) (o : Option (ℕ × Memory)) → Takes p_data t o (reallocated p_data o t)
reallocated-Takes p_data t none = refl
reallocated-Takes p_data t (some (ptr, mem)) = (
  refl,
  refl,
  unfold load_pointer in load-store mem 8 p_data ptr ∙ omega arith,
  elsewhere mem p_data ptr,
)

-- For sizes other than zero `allocate_field` asks `realloc` for the exact product of the two
-- sizes if it is below 2 ^ 64, and gives up with "size too large" if it is not. What `realloc`
-- gives is taken: on a null pointer the call fails with "realloc failed", and otherwise it
-- succeeds with the new pointer at `p_data` and the rest of the memory as `realloc` left it.
pub allocate_field-exact :
    (realloc : Realloc) (p_data data_size array_size : ℕ) (t : Target)
    → 0 < data_size
    → 0 < array_size
    → ((array_size * data_size < 2 ^ 64)
        × (allocate_field realloc p_data data_size array_size t
            ≡ reallocated p_data
                (realloc t.memory (load_pointer t.memory p_data) (array_size * data_size))
                t)
        × Takes p_data t
            (realloc t.memory (load_pointer t.memory p_data) (array_size * data_size))
            (allocate_field realloc p_data data_size array_size t))
      ⊎ ((2 ^ 64 ≤ array_size * data_size)
          × (allocate_field realloc p_data data_size array_size t ≡ refuse size_too_large t))
unfolding allocate_field
allocate_field-exact realloc p_data data_size array_size t hd ha =
    let d : (data_size == 0) ≡ false = ground arith in
    let a : (array_size == 0) ≡ false = ground arith in
    elim (Bool-cases (is_too_large data_size array_size)) [
      | inl e ↦ inr (is_too_large→lt data_size array_size ha e, rw (d, a, e) refl)
      | inr n ↦
          let fits = is_too_large→le data_size array_size ha n in
          let exact : u64 (array_size * data_size) ≡ array_size * data_size = mod-eq_of_lt fits in
          inl (fits, rw (d, a, n, exact) refl, rw (d, a, n, exact) (reallocated-Takes p_data t _))
    ]
