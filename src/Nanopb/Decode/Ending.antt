-- ===== src/Nanopb/Decode/Ending.antt =====
-- ios/Pods/nanopb/pb_decode.c: actions that come to an end on every stream and memory, in sequence
-- and on substreams.
use spar_somnong.Common.{
  ℕ, ◌≡◌, refl, Bool, true, false, ◌&&◌, leb, if◌then◌else◌, Outcome, ok, failed, ◌>>◌, arith,
}
use spar_somnong.Nanopb.Types.{PbField, pb_ltype}
use spar_somnong.Nanopb.Ltype
use spar_somnong.Nanopb.Istream.{Istream}
use spar_somnong.Nanopb.Istream.ProgressSubstream.{
  pb_make_string_substream-Progress, pb_close_string_substream-Progress,
}
use spar_somnong.Nanopb.Istream.Values.{pb_make_string_substream, pb_close_string_substream}
use spar_somnong.Nanopb.Decode.Target.{Target, FieldAction, on_stream}
use spar_somnong.Nanopb.Decode.Numbers.{FieldDecoder}
use spar_somnong.Nanopb.Decode.Substream.{
  close_and_return, after_substream, with_substream, in_substream, count_item,
}
use spar_somnong.Nanopb.Decode.Advances.{
  Advances, went_on, refused, broke, Advances-return, Advances-later, Advances-weaken,
  Advances-on_stream, Advances-bind,
}

-- An action that comes to an end on every stream and memory.
abbrev pub Ending : {A : Type 0} → FieldAction A → Type 0
Ending act = (t : Target) → Advances 0 t (act t)

pub Ending-seq : (m n : FieldAction (Unit {0})) → Ending m → Ending n → Ending (m >> n)
Ending-seq m n h k t = Advances-bind m (λ _. n) 0 t (h t) (λ a u le. k u)

pub Ending-if :
    {A : Type 0} (b : Bool) (m n : FieldAction A)
    → Ending m
    → Ending n
    → Ending (if b then m else n)
Ending-if true m n h k = h
Ending-if false m n h k = k

pub Ending-when :
    {A : Type 0} (b : Bool) (m n : FieldAction A)
    → (b ≡ true → Ending m)
    → (b ≡ false → Ending n)
    → Ending (if b then m else n)
Ending-when true m n h k = h refl
Ending-when false m n h k = k refl

pub and-true : (a b : Bool) → (a && b) ≡ true → b ≡ true
and-true true b h = h
and-true false b h = absurd (cc h)

pub close_and_return-Ending :
    (sub : Istream) (status : Outcome (Unit {0}))
    → ((t : Target) → Advances 0 t (status, t))
    → Ending (close_and_return sub status)
unfolding close_and_return
close_and_return-Ending sub status h t =
    Advances-bind (on_stream (pb_close_string_substream sub)) (λ _ u. (status, u)) 0 t
      (Advances-on_stream (pb_close_string_substream sub) 0 t
        (pb_close_string_substream-Progress sub t.stream))
      (λ a u le. h u)

pub ok-Ending : (t : Target) → Advances 0 t (ok tt, t)
ok-Ending t = Advances-return tt t

pub failed-Ending : (t : Target) → Advances {A = Unit {0}} 0 t (failed, t)
failed-Ending t = refused t (omega arith) refl

-- What follows the work on a substream, on the stream itself.
after_substream-Advances :
    (k : Outcome (Unit {0}) → Istream → FieldAction (Unit {0})) (s : Istream) (u : Target)
    (r : Outcome (Unit {0}) × Target)
    → ((sub : Istream) → Ending (k (ok tt) sub))
    → ((sub : Istream) → Ending (k failed sub))
    → Advances 0 u r
    → (t : Target) → t.stream ≡ s
    → Advances 0 t (after_substream k r s)
after_substream-Advances k s u r p q (went_on a v h e) t same = rw e (
    Advances-later 0 0 t (record v { stream = s }) _ (rw same (omega arith)) (omega arith)
      (p v.stream (record v { stream = s })))
after_substream-Advances k s u r p q (refused v h e) t same = rw e (
    Advances-later 0 0 t (record v { stream = s }) _ (rw same (omega arith)) (omega arith)
      (q v.stream (record v { stream = s })))
after_substream-Advances k s u r p q (broke v h e) t same =
    rw e (broke (record v { stream = s }) (rw same (omega arith)) refl)

pub with_substream-Advances :
    (act : FieldAction (Unit {0})) (k : Outcome (Unit {0}) → Istream → FieldAction (Unit {0}))
    (t : Target)
    → Ending act
    → ((sub : Istream) → Ending (k (ok tt) sub))
    → ((sub : Istream) → Ending (k failed sub))
    → Advances 1 t (with_substream act k t)
unfolding with_substream
with_substream-Advances act k t h p q =
    Advances-bind (on_stream pb_make_string_substream) _ 1 t
      (Advances-on_stream pb_make_string_substream 1 t (pb_make_string_substream-Progress t.stream))
      (λ sub u le.
        after_substream-Advances k u.stream (record u { stream = sub })
          (act (record u { stream = sub })) p q (h (record u { stream = sub })) u refl)

pub in_substream-Ending : (act : FieldAction (Unit {0})) → Ending act → Ending (in_substream act)
unfolding in_substream
in_substream-Ending act h t = Advances-weaken 1 0 t _ (omega arith) (
    with_substream-Advances act (λ status sub. close_and_return sub status) t h
      (λ sub. close_and_return-Ending sub (ok tt) ok-Ending)
      (λ sub. close_and_return-Ending sub failed failed-Ending))

-- A field decoder that comes to an end on a field, and takes a byte where the field can be packed.
pub record Decodes (func : FieldDecoder) (field : PbField) : Type 0 where
  pub ending : (dest : ℕ) → Ending (func field dest)
  pub takes :
      leb (pb_ltype field.type) Ltype.last_packable ≡ true
      → (dest : ℕ) (t : Target) → Advances 1 t (func field dest t)

pub count_item-Ending : (p_size : ℕ) → Ending (count_item p_size)
unfolding count_item
count_item-Ending p_size t = went_on tt _ (omega arith) refl
