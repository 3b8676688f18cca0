-- ===== src/Nanopb/Decode/Advances.antt =====
-- ios/Pods/nanopb/pb_decode.c: calls on a stream and a memory that come to an end and give no bytes
-- of the stream back.
use spar_somnong.Common.{
  ℕ, ◌+◌, ◌≤◌, ◌≡◌, refl, Bool, true, false, if◌then◌else◌, Outcome, ok, failed, fault, ◌>>=◌,
  arith,
}
use spar_somnong.Nanopb.Types.{ErrorMessage}
use spar_somnong.Nanopb.Istream.{Decoder, raise}
use spar_somnong.Nanopb.Istream.Progress.{Progress, returned, gave_up}
use spar_somnong.Nanopb.Decode.Target.{Target, FieldAction, on_stream, refuse, assign}
use spar_somnong.Nanopb.Decode.Heap.{MemoryAction, on_memory}
use spar_somnong.Nanopb.Decode.Done.{done, Finishes}

-- The call returned and took at least `least` bytes from the stream, or it failed and took some or
-- none, or it called through a null pointer; it did not run on.
pub data Advances {A : Type 0} (least : ℕ) (t : Target) (r : Outcome A × Target) : Type 0 where
  went_on :
      (a : A) (u : Target)
      → u.stream.bytes_left + least ≤ t.stream.bytes_left
      → r ≡ (ok a, u)
      → Advances least t r
  refused :
      (u : Target)
      → u.stream.bytes_left ≤ t.stream.bytes_left
      → r ≡ (failed, u)
      → Advances least t r
  broke :
      (u : Target) → u.stream.bytes_left ≤ t.stream.bytes_left → r ≡ (fault, u) → Advances least t r

module _ {A : Type 0} where
  pub Advances-refuse : (n : ℕ) (t : Target) (e : ErrorMessage) → Advances {A = A} n t (refuse e t)
  unfolding raise
  Advances-refuse n t e = refused _ (omega arith) refl

  pub Advances-return : (a : A) (t : Target) → Advances 0 t (ok a, t)
  Advances-return a t = went_on a t (omega arith) refl

  pub Advances-fault : (n : ℕ) (t : Target) → Advances {A = A} n t (fault, t)
  Advances-fault n t = broke t (omega arith) refl

  pub Advances-later :
      (n k : ℕ) (t u : Target) (r : Outcome A × Target)
      → u.stream.bytes_left + n ≤ t.stream.bytes_left
      → k ≤ n
      → Advances 0 u r
      → Advances k t r
  Advances-later n k t u r le kn (went_on a v h e) = went_on a v (omega arith) e
  Advances-later n k t u r le kn (refused v h e) = refused v (omega arith) e
  Advances-later n k t u r le kn (broke v h e) = broke v (omega arith) e

  pub Advances-weaken :
      (n k : ℕ) (t : Target) (r : Outcome A × Target) → k ≤ n → Advances n t r → Advances k t r
  Advances-weaken n k t r kn (went_on a u h e) = went_on a u (omega arith) e
  Advances-weaken n k t r kn (refused u h e) = refused u h e
  Advances-weaken n k t r kn (broke u h e) = broke u h e

  pub Advances-if :
      (b : Bool) {n : ℕ} {t : Target} (x y : FieldAction A)
      → Advances n t (x t)
      → Advances n t (y t)
      → Advances n t ((if b then x else y) t)
  Advances-if true x y p q = p
  Advances-if false x y p q = q

  pub Advances-either :
      (b : Bool) {n : ℕ} {t : Target} (x y : Outcome A × Target)
      → Advances n t x
      → Advances n t y
      → Advances n t (if b then x else y)
  Advances-either true x y p q = p
  Advances-either false x y p q = q

  -- A call on the stream alone.
  pub Advances-on_stream :
      (d : Decoder A) (n : ℕ) (t : Target)
      → Progress n t.stream (d t.stream)
      → Advances n t (on_stream d t)
  Advances-on_stream d n t (returned a s h e) = rw e (went_on a _ h refl)
  Advances-on_stream d n t (gave_up s h e) = rw e (refused _ h refl)

  -- A call on the memory alone.
  pub Advances-on_memory :
      (act : MemoryAction A) (t : Target) → Finishes act → Advances 0 t (on_memory act t)
  Advances-on_memory act t h = elim (h t.memory) [
    | done a mem e ↦ rw e (went_on a _ (omega arith) refl)
  ]

-- A call, and what is done with its result.
pub Advances-bind :
    {A B : Type 0} (m : FieldAction A) (f : A → FieldAction B) (n : ℕ) (t : Target)
    → Advances n t (m t)
    → ((a : A) (u : Target) → u.stream.bytes_left + n ≤ t.stream.bytes_left → Advances 0 u (f a u))
    → Advances n t ((m >>= f) t)
Advances-bind m f n t (went_on a u h e) k =
    rw e (Advances-later n n t u (f a u) h (omega arith) (k a u h))
Advances-bind m f n t (refused u h e) k = rw e (refused u h refl)
Advances-bind m f n t (broke u h e) k = rw e (broke u h refl)

-- A call that may take nothing, and one that takes bytes.
pub Advances-after :
    {A B : Type 0} (m : FieldAction A) (f : A → FieldAction B) (n : ℕ) (t : Target)
    → Advances 0 t (m t)
    → ((a : A) (u : Target) → u.stream.bytes_left ≤ t.stream.bytes_left → Advances n u (f a u))
    → Advances n t ((m >>= f) t)
Advances-after m f n t (went_on a u h e) k = rw e (later (k a u (omega arith)))
  where
    later : Advances n u (f a u) → Advances n t (f a u)
    later (went_on b v i e') = went_on b v (omega arith) e'
    later (refused v i e') = refused v (omega arith) e'
    later (broke v i e') = broke v (omega arith) e'
Advances-after m f n t (refused u h e) k = rw e (refused u (omega arith) refl)
Advances-after m f n t (broke u h e) k = rw e (broke u (omega arith) refl)

pub Advances-assign : (n a v : ℕ) (t : Target) → Advances 0 t (assign n a v t)
Advances-assign n a v t = went_on tt _ (omega arith) refl
