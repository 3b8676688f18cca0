-- ===== src/Nanopb/Istream/Progress.antt =====
-- ios/Pods/nanopb/pb_decode.c: on every stream, a user's included, the readers come to an end and
-- give no bytes back.
use spar_somnong.Common.{
  ℕ, zero, suc, ◌+◌, ◌-◌, ◌<◌, ◌≤◌, ◌≡◌, refl, Bool, true, false, Bool-cases, inl, inr, not, ◌&&◌,
  ◌==◌, ltb, ltb→le, if◌then◌else◌, List, Outcome, ok, failed, ◌>>=◌, arith,
}
use spar_somnong.Nanopb.Types.{ErrorMessage}
use spar_somnong.Nanopb.Istream.{
  Istream, Decoder, raise, call_read, was_read, read_now, skip_chunks, is_user, pb_read,
  byte_was_read, pb_readbyte,
}

-- The call returned and took at least `least` bytes from the stream, or it failed and took some or
-- none; it did neither fault nor run on.
pub data Progress {ℓ} {A : Type ℓ} (least : ℕ) (s : Istream) (r : Outcome A × Istream)
    : Type ℓ where
  returned :
      (a : A) (t : Istream)
      → t.bytes_left + least ≤ s.bytes_left
      → r ≡ (ok a, t)
      → Progress least s r
  gave_up : (t : Istream) → t.bytes_left ≤ s.bytes_left → r ≡ (failed, t) → Progress least s r

module _ {ℓ} {A : Type ℓ} where
  pub Progress-raise : (n : ℕ) (s : Istream) (e : ErrorMessage) → Progress {A = A} n s (raise e s)
  unfolding raise
  Progress-raise n s e = gave_up _ (omega arith) refl

  pub Progress-return : (a : A) (s : Istream) → Progress 0 s (ok a, s)
  Progress-return a s = returned a s (omega arith) refl

  pub Progress-later :
      (n k : ℕ) (s t : Istream) (r : Outcome A × Istream)
      → t.bytes_left + n ≤ s.bytes_left
      → k ≤ n
      → Progress 0 t r
      → Progress k s r
  Progress-later n k s t r le kn (returned a u h e) = returned a u (omega arith) e
  Progress-later n k s t r le kn (gave_up u h e) = gave_up u (omega arith) e

  pub Progress-weaken :
      (n k : ℕ) (s : Istream) (r : Outcome A × Istream) → k ≤ n → Progress n s r → Progress k s r
  Progress-weaken n k s r kn (returned a u h e) = returned a u (omega arith) e
  Progress-weaken n k s r kn (gave_up u h e) = gave_up u h e

  pub Progress-if :
      (b : Bool) {n : ℕ} {s : Istream} (x y : Decoder A)
      → Progress n s (x s)
      → Progress n s (y s)
      → Progress n s ((if b then x else y) s)
  Progress-if true x y p q = p
  Progress-if false x y p q = q

  pub Progress-either :
      (b : Bool) {n : ℕ} {s : Istream} (x y : Outcome A × Istream)
      → Progress n s x
      → Progress n s y
      → Progress n s (if b then x else y)
  Progress-either true x y p q = p
  Progress-either false x y p q = q

-- A call, and what is done with its result.
pub Progress-bind {ℓ κ} :
    {A : Type ℓ} {B : Type κ} (m : Decoder A) (f : A → Decoder B) (n : ℕ) (s : Istream)
    → Progress n s (m s)
    → ((a : A) (t : Istream) → t.bytes_left + n ≤ s.bytes_left → Progress 0 t (f a t))
    → Progress n s ((m >>= f) s)
Progress-bind m f n s (returned a t h e) k =
    rw e (Progress-later n n s t (f a t) h (omega arith) (k a t h))
Progress-bind m f n s (gave_up t h e) k = rw e (gave_up t h refl)

byte_was_read-Progress :
    (r : Bool × List ℕ × List ℕ) (s : Istream) → 0 < s.bytes_left → Progress 1 s (byte_was_read r s)
unfolding raise
byte_was_read-Progress (true, bytes, state) s h = returned _ _ (omega arith) refl
byte_was_read-Progress (false, bytes, state) s h = gave_up _ (omega arith) refl

pub pb_readbyte-Progress : (s : Istream) → Progress 1 s (pb_readbyte s)
unfolding pb_readbyte
pb_readbyte-Progress s = elim (Bool-cases (s.bytes_left == 0)) [
  | inl e ↦ rw e (Progress-raise 1 s _)
  | inr n ↦ rw n (byte_was_read-Progress (call_read s.callback s.state 1) s (ground arith))
]

was_read-Progress :
    (r : Bool × List ℕ × List ℕ) (count : ℕ) (s : Istream)
    → count ≤ s.bytes_left
    → Progress count s (was_read r count s)
unfolding raise
was_read-Progress (true, bytes, state) count s h = returned _ _ (omega arith) refl
was_read-Progress (false, bytes, state) count s h = gave_up _ (omega arith) refl

pub read_now-Progress : (count : ℕ) (s : Istream) → Progress count s (read_now count s)
unfolding read_now
read_now-Progress count s = elim (Bool-cases (ltb s.bytes_left count)) [
  | inl e ↦ rw e (Progress-raise count s _)
  | inr n ↦ rw n (was_read-Progress (call_read s.callback s.state count) count s (ltb→le _ _ n))
]

skip_chunks-Progress :
    (fuel count : ℕ) (s : Istream) → count ≤ fuel → Progress 0 s (skip_chunks fuel count s)
unfolding skip_chunks
skip_chunks-Progress zero count s h =
    let small : ltb 16 count ≡ false = ground arith in
    rw small
      (Progress-weaken count 0 s (read_now count s) (omega arith) (read_now-Progress count s))
skip_chunks-Progress (suc fuel) count s h = elim (Bool-cases (ltb 16 count)) [
  | inl e ↦ rw e (
      Progress-weaken 16 0 s _ (omega arith) (
        Progress-bind (read_now 16) (λ _. skip_chunks fuel (count - 16)) 16 s
          (read_now-Progress 16 s)
          (λ a t le. skip_chunks-Progress fuel (count - 16) t (omega arith))))
  | inr n ↦
      rw n (Progress-weaken count 0 s (read_now count s) (omega arith) (read_now-Progress count s))
]

pub pb_read-Progress : (keep : Bool) (count : ℕ) (s : Istream) → Progress 0 s (pb_read keep count s)
unfolding pb_read
pb_read-Progress keep count s =
    Progress-either (not keep && is_user s.callback) (skip_chunks count count s) (read_now count s)
      (skip_chunks-Progress count count s (omega arith))
      (Progress-weaken count 0 s (read_now count s) (omega arith) (read_now-Progress count s))

-- A byte that is kept is taken from the stream.
pub pb_read_one-Progress : (s : Istream) → Progress 1 s (pb_read true 1 s)
unfolding pb_read
pb_read_one-Progress s = read_now-Progress 1 s
