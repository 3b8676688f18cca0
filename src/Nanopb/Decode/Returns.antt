-- ===== src/Nanopb/Decode/Returns.antt =====
-- ios/Pods/nanopb/pb_decode.c: what is known of the iterator where a field decoder returns.
use spar_somnong.Common.{
  ℕ, zero, suc, Bool, true, false, Bool-cases, inl, inr, not, ◌==◌, if◌then◌else◌, List, Outcome,
  ok, failed, fault, out_of_fuel, resume, return, ◌>>=◌,
}
use spar_somnong.Nanopb.Types.{
  ErrorMessage, PbField, pb_ltype, pb_htype, invalid_union_tag, iterator_error,
}
use spar_somnong.Nanopb.Ltype
use spar_somnong.Nanopb.Htype
use spar_somnong.Nanopb.Memory.{load_size}
use spar_somnong.Nanopb.Istream.{raise}
use spar_somnong.Nanopb.Iter.{PbFieldIter, current, pb_field_iter_next, pb_field_iter_find}
use spar_somnong.Nanopb.Iter.Search.{IsTagged}
use spar_somnong.Nanopb.Iter.Placed.{IsPlaced, next-IsPlaced, find-IsPlaced}
use spar_somnong.Nanopb.Decode.Target.{Target, FieldAction, refuse}
use spar_somnong.Nanopb.Decode.Numbers.{FieldDecoder}
use spar_somnong.Nanopb.Decode.Heap.{on_memory}
use spar_somnong.Nanopb.Decode.Release.{pb_release_single_field}
use spar_somnong.Nanopb.Decode.Host.{Host}
use spar_somnong.Nanopb.Decode.Field.{
  find_extension_loop, pb_release_union_field, decode_by_allocation, decode_field,
}

-- What holds of the result, if the call returns one.
abbrev pub Post : {A : Type 0} → (A → Type 0) → Outcome A × Target → Type 0
Post Q (ok a, u) = Q a
Post Q (failed, u) = Unit {0}
Post Q (fault, u) = Unit {0}
Post Q (out_of_fuel, u) = Unit {0}

pub Post-always :
    {A : Type 0} (Q : A → Type 0) (r : Outcome A × Target) → ((a : A) → Q a) → Post Q r
Post-always Q (ok a, u) h = h a
Post-always Q (failed, u) h = tt
Post-always Q (fault, u) h = tt
Post-always Q (out_of_fuel, u) h = tt

resume-Post :
    {A B : Type 0} (P : A → Type 0) (Q : B → Type 0) (r : Outcome A × Target)
    (f : A → FieldAction B)
    → Post P r
    → ((a : A) (u : Target) → P a → Post Q (f a u))
    → Post Q (resume r f)
resume-Post P Q (ok a, u) f h k = k a u h
resume-Post P Q (failed, u) f h k = tt
resume-Post P Q (fault, u) f h k = tt
resume-Post P Q (out_of_fuel, u) f h k = tt

pub Post-bind :
    {A B : Type 0} (P : A → Type 0) (Q : B → Type 0) (m : FieldAction A) (f : A → FieldAction B)
    (t : Target)
    → Post P (m t)
    → ((a : A) (u : Target) → P a → Post Q (f a u))
    → Post Q ((m >>= f) t)
Post-bind P Q m f t h k = resume-Post P Q (m t) f h k

-- A call of whose result nothing is known.
pub Post-after :
    {A B : Type 0} (Q : B → Type 0) (m : FieldAction A) (f : A → FieldAction B) (t : Target)
    → ((a : A) (u : Target) → Post Q (f a u))
    → Post Q ((m >>= f) t)
Post-after Q m f t k =
    Post-bind (λ _. Unit {0}) Q m f t (Post-always (λ _. Unit {0}) (m t) (λ a. tt)) (λ a u p. k a u)

pub Post-either :
    {A : Type 0} (Q : A → Type 0) (b : Bool) (x y : Outcome A × Target)
    → Post Q x
    → Post Q y
    → Post Q (if b then x else y)
Post-either Q true x y p q = p
Post-either Q false x y p q = q

pub Post-if :
    {A : Type 0} (Q : A → Type 0) (b : Bool) (x y : FieldAction A) (t : Target)
    → Post Q (x t)
    → Post Q (y t)
    → Post Q ((if b then x else y) t)
Post-if Q true x y t p q = p
Post-if Q false x y t p q = q

pub Post-refuse :
    {A : Type 0} (Q : A → Type 0) (e : ErrorMessage) (t : Target) → Post {A = A} Q (refuse e t)
unfolding raise
Post-refuse Q e t = tt

module _ (fields : List PbField) (tags : IsTagged fields) where
  pub find_extension_loop-IsPlaced :
      (rounds from : ℕ) (it : PbFieldIter)
      → IsPlaced fields it
      → IsPlaced fields (find_extension_loop rounds from it).1
  unfolding find_extension_loop
  find_extension_loop-IsPlaced zero from it placed = placed
  find_extension_loop-IsPlaced (suc rounds) from it placed =
      let it' = (pb_field_iter_next it).1 in
      let next = next-IsPlaced fields tags it placed in
      elim (Bool-cases (pb_ltype (current it).type == Ltype.extension)) [
        | inl e ↦ rw e placed
        | inr n ↦ elim (Bool-cases (it'.pos == from)) [
          | inl e ↦ rw (n, e) next
          | inr m ↦ rw (n, m) (find_extension_loop-IsPlaced rounds from it' next)
        ]
      ]

  module _ (host : Host) (submessage : FieldDecoder) (fuel size_at : ℕ) where
    release_union-Post :
        (it : PbFieldIter) (t : Target)
        → IsPlaced fields it
        → Post (IsPlaced fields) (pb_release_union_field host submessage fuel it t)
    unfolding pb_release_union_field
    release_union-Post it t placed =
        let Q = IsPlaced fields in
        let old_tag = load_size t.memory it.p_size in
        let new_tag = (current it).tag in
        let old = pb_field_iter_find it old_tag in
        let new = pb_field_iter_find old.1 new_tag in
        let old_placed = find-IsPlaced fields tags it old_tag placed in
        let release = pb_release_single_field host.program host.free fuel old.1 in
        Post-either Q (old_tag == 0) (ok it, t) _ placed
          (Post-either Q (old_tag == new_tag) (ok it, t) _ placed
            (Post-either Q (not old.0) (refuse invalid_union_tag t) _
              (Post-refuse Q invalid_union_tag t)
              (Post-after Q (on_memory release) _ t (λ a u.
                Post-if Q (not new.0) (refuse iterator_error) (return new.1) u
                  (Post-refuse Q iterator_error u)
                  (find-IsPlaced fields tags old.1 new_tag old_placed)))))

    pub decode_field-Post :
        (wire_type : ℕ) (it : PbFieldIter) (t : Target)
        → IsPlaced fields it
        → Post (IsPlaced fields) (decode_field host submessage fuel wire_type it t)
    unfolding decode_field
    decode_field-Post wire_type it t placed =
        let Q = IsPlaced fields in
        let oneof = pb_htype (current it).type == Htype.oneof in
        Post-bind Q Q (if oneof then pb_release_union_field host submessage fuel it else return it)
          _ t
          (Post-if Q oneof (pb_release_union_field host submessage fuel it) (return it) t
            (release_union-Post it t placed) placed)
          (λ it' u placed'.
            Post-after Q (decode_by_allocation host submessage fuel wire_type it') (λ _. return it')
              u (λ a v. placed'))
