-- ===== src/Nanopb/Ostream/Settled.antt =====
-- Encoders whose output does not depend on the stream: each one writes certain bytes, in the sense
-- of `Writes`, or refuses on every sizing stream.
use spar_somnong.Common.{
  ℕ, ◌+◌, ◌^◌, ◌<◌, ◌≢◌, refl, Bool, true, false, List, [], ◌++◌, length, Outcome, ok, failed,
  fault, out_of_fuel, resume, ◌>>◌, return, arith, if◌then◌else◌,
}
use spar_somnong.Nanopb.Types.{ErrorMessage, u64}
use spar_somnong.Nanopb.Ostream.{Ostream, Encoder, raise}
use spar_somnong.Nanopb.Ostream.Writes.{Writes, Writes-return, Writes-seq, sizing}

abbrev pub Refuses : Encoder → Type 0
Refuses m = (bw : ℕ) → bw < 2 ^ 64 → (m (sizing bw)).0 ≢ ok tt

pub data Settled (m : Encoder) : Type 0 where
  writes : (bs : List ℕ) → Writes m bs → Settled m
  refuses : Refuses m → Settled m

pub Settled-return : Settled (return tt)
Settled-return = writes [] Writes-return

pub Settled-raise : (e : ErrorMessage) → Settled (raise e)
unfolding raise
Settled-raise e = refuses (λ bw h. λ p. cc)

pub Settled-fault : Settled (λ s. (fault, s))
Settled-fault = refuses (λ bw h. λ p. cc)

pub Settled-out_of_fuel : Settled (λ s. (out_of_fuel, s))
Settled-out_of_fuel = refuses (λ bw h. λ p. cc)

pub Settled-failed : Settled (λ s. (failed, s))
Settled-failed = refuses (λ bw h. λ p. cc)

pub Settled-if : (b : Bool) {x y : Encoder} → Settled x → Settled y → Settled (if b then x else y)
Settled-if true sx sy = sx
Settled-if false sx sy = sy

resume-ne-ok :
    (r : Outcome (Unit {0}) × Ostream) (k : Unit {0} → Encoder)
    → r.0 ≢ ok tt
    → (resume r k).0 ≢ ok tt
resume-ne-ok (ok a, s) k h = absurd (h refl)
resume-ne-ok (failed, s) k h = h
resume-ne-ok (fault, s) k h = h
resume-ne-ok (out_of_fuel, s) k h = h

Refuses-later : (m n : Encoder) (bs : List ℕ) → Writes m bs → Refuses n → Refuses (m >> n)
Refuses-later m n bs wm rn bw h = rw (wm.sizes bw h) (rn (u64 (bw + length bs)) (omega arith))

pub Settled-seq : {m n : Encoder} → Settled m → Settled n → Settled (m >> n)
Settled-seq {m} {n} (refuses rm) sn =
    refuses (λ bw h. resume-ne-ok (m (sizing bw)) (λ _. n) (rm bw h))
Settled-seq (writes xs wm) (writes ys wn) = writes (xs ++ ys) (Writes-seq wm wn)
Settled-seq {m} {n} (writes xs wm) (refuses rn) = refuses (Refuses-later m n xs wm rn)
