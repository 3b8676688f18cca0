-- ===== src/Nanopb/Encode/CallbackSettled.antt =====
-- ios/Pods/nanopb/pb_encode.c: the values a field is read for and the errors of callbacks keep
-- encoders settled.
use spar_somnong.Common.{ℕ, Bool, ◌≢◌, refl, List, Outcome, ok, failed, fault, out_of_fuel}
use spar_somnong.Nanopb.Ostream.{Ostream, Encoder, raise}
use spar_somnong.Nanopb.Ostream.Writes.{Overflows, sizing, buffer}
use spar_somnong.Nanopb.Ostream.Settled.{
  Settled, writes, refuses, Settled-fault, Settled-out_of_fuel, Settled-failed,
}
use spar_somnong.Nanopb.Encode.Message.{with_value, or_callback_error}

pub with_value-Settled :
    (v : Outcome Bool) (k : Bool → Encoder)
    → ((b : Bool) → Settled (k b))
    → Settled (with_value v k)
with_value-Settled (ok b) k h = h b
with_value-Settled failed k h = Settled-failed
with_value-Settled fault k h = Settled-fault
with_value-Settled out_of_fuel k h = Settled-out_of_fuel

or_callback_error-ne-ok :
    (r : Outcome (Unit {0}) × Ostream) → r.0 ≢ ok tt → (or_callback_error r).0 ≢ ok tt
unfolding raise
or_callback_error-ne-ok (ok a, s) h = absurd (h refl)
or_callback_error-ne-ok (failed, s) h = λ e. cc
or_callback_error-ne-ok (fault, s) h = h
or_callback_error-ne-ok (out_of_fuel, s) h = h

or_callback_error-Overflows :
    (st : List ℕ) (room : ℕ) (r : Outcome (Unit {0}) × Ostream)
    → Overflows st room r
    → Overflows st room (or_callback_error r)
unfolding raise
or_callback_error-Overflows st room (ok a, s) o = absurd (cc (o.status))
or_callback_error-Overflows st room (failed, s) o = record {
  status = refl;
  message = rw o.message;
  in_bounds = o.in_bounds;
}
or_callback_error-Overflows st room (fault, s) o = o
or_callback_error-Overflows st room (out_of_fuel, s) o = o

pub or_callback_error-Settled : {m : Encoder} → Settled m → Settled (λ s. or_callback_error (m s))
or_callback_error-Settled {m} (writes bs w) = writes bs (record {
  sizes = λ bw h. rw (w.sizes bw h);
  stores = λ st mx bw h fits. rw (w.stores st mx bw h fits);
  overflows = λ st mx bw h over small.
      or_callback_error-Overflows st _ (m (buffer st mx bw)) (w.overflows st mx bw h over small);
})
or_callback_error-Settled {m} (refuses r) =
    refuses (λ bw h. or_callback_error-ne-ok (m (sizing bw)) (r bw h))
