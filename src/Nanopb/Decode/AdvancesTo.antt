-- ===== src/Nanopb/Decode/AdvancesTo.antt =====
-- ios/Pods/nanopb/pb_decode.c: calls that come to an end with a result of which something is known.
use spar_somnong.Common.{
  ◌≤◌, ◌≡◌, refl, Bool, true, false, if◌then◌else◌, Outcome, ok, failed, fault, ◌>>=◌, arith,
}
use spar_somnong.Nanopb.Types.{ErrorMessage}
use spar_somnong.Nanopb.Istream.{raise}
use spar_somnong.Nanopb.Decode.Target.{Target, FieldAction, refuse}
use spar_somnong.Nanopb.Decode.Advances.{Advances, went_on, refused, broke}

-- The call came to an end and gave no bytes back; a result that it returned has the property `P`.
pub data AdvancesTo {A : Type 0} (P : A → Type 0) (t : Target) (r : Outcome A × Target)
    : Type 0 where
  reached :
      (a : A) (u : Target)
      → P a
      → u.stream.bytes_left ≤ t.stream.bytes_left
      → r ≡ (ok a, u)
      → AdvancesTo P t r
  lost :
      (u : Target) → u.stream.bytes_left ≤ t.stream.bytes_left → r ≡ (failed, u) → AdvancesTo P t r
  crashed :
      (u : Target) → u.stream.bytes_left ≤ t.stream.bytes_left → r ≡ (fault, u) → AdvancesTo P t r

pub AdvancesTo-return :
    {A : Type 0} (P : A → Type 0) (a : A) (t : Target) → P a → AdvancesTo P t (ok a, t)
AdvancesTo-return P a t p = reached a t p (omega arith) refl

pub AdvancesTo-of :
    {A : Type 0} (P : A → Type 0) (t : Target) (r : Outcome A × Target)
    → ((a : A) → P a)
    → Advances 0 t r
    → AdvancesTo P t r
AdvancesTo-of P t r p (went_on a u h e) = reached a u (p a) (omega arith) e
AdvancesTo-of P t r p (refused u h e) = lost u h e
AdvancesTo-of P t r p (broke u h e) = crashed u h e

pub AdvancesTo-refuse :
    {A : Type 0} (P : A → Type 0) (e : ErrorMessage) (t : Target) → AdvancesTo P t (refuse e t)
unfolding raise
AdvancesTo-refuse P e t = lost _ (omega arith) refl

pub AdvancesTo-either :
    {A : Type 0} (P : A → Type 0) (b : Bool) {t : Target} (x y : Outcome A × Target)
    → AdvancesTo P t x
    → AdvancesTo P t y
    → AdvancesTo P t (if b then x else y)
AdvancesTo-either P true x y p q = p
AdvancesTo-either P false x y p q = q

pub AdvancesTo-if :
    {A : Type 0} (P : A → Type 0) (b : Bool) (x y : FieldAction A) (t : Target)
    → AdvancesTo P t (x t)
    → AdvancesTo P t (y t)
    → AdvancesTo P t ((if b then x else y) t)
AdvancesTo-if P true x y t p q = p
AdvancesTo-if P false x y t p q = q

pub AdvancesTo-later :
    {A : Type 0} (P : A → Type 0) (t u : Target) (r : Outcome A × Target)
    → u.stream.bytes_left ≤ t.stream.bytes_left
    → AdvancesTo P u r
    → AdvancesTo P t r
AdvancesTo-later P t u r le (reached a v p h e) = reached a v p (omega arith) e
AdvancesTo-later P t u r le (lost v h e) = lost v (omega arith) e
AdvancesTo-later P t u r le (crashed v h e) = crashed v (omega arith) e

pub AdvancesTo-bind :
    {A B : Type 0} (P : A → Type 0) (Q : B → Type 0) (m : FieldAction A) (f : A → FieldAction B)
    (t : Target)
    → AdvancesTo P t (m t)
    → ((a : A) (u : Target)
        → P a
        → u.stream.bytes_left ≤ t.stream.bytes_left
        → AdvancesTo Q u (f a u))
    → AdvancesTo Q t ((m >>= f) t)
AdvancesTo-bind P Q m f t (reached a u p h e) k =
    rw e (AdvancesTo-later Q t u (f a u) h (k a u p h))
AdvancesTo-bind P Q m f t (lost u h e) k = rw e (lost u h refl)
AdvancesTo-bind P Q m f t (crashed u h e) k = rw e (crashed u h refl)
