-- ===== src/Nanopb/Encode/Size.antt =====
-- `pb_get_encoded_size` and the two framings of a message agree with what `pb_encode` writes.
use spar_somnong.Common.{
  ap, ℕ, ◌+◌, ◌≡◌, refl, List, [], ◌∷◌, ◌++◌, length, arith, Outcome, ok, failed, fault,
  out_of_fuel,
}
use spar_somnong.Nanopb.Types.{u64}
use spar_somnong.Nanopb.Memory.{Memory, Program}
use spar_somnong.Nanopb.Wire.{varint64}
use spar_somnong.Nanopb.Ostream.{Ostream, Encoder, pb_ostream_sizing}
use spar_somnong.Nanopb.Ostream.Writes.{Writes, Writes-seq, Writes-pb_write, sizing}
use spar_somnong.Nanopb.Ostream.Settled.{Settled, writes, refuses}
use spar_somnong.Nanopb.Encode.SubmessageSettled.{pb_encode_submessage-Writes}
use spar_somnong.Nanopb.Encode.MessageSettled.{IsProgram, pb_encode-Settled}
use spar_somnong.Nanopb.Encode.Message.{
  pb_encode, pb_encode_delimited, pb_encode_nullterminated, pb_get_encoded_size, size_of_output,
}

-- A message of `n` bytes: the bytes, that the encoder writes them, and that they are as many.
pub record HasSize (m : Encoder) (n : ℕ) : Type 0 where
  pub bytes : List ℕ
  pub written : Writes m bytes
  pub counted : n ≡ u64 (length bytes)

size_of_output-ok :
    (r : Outcome (Unit {0}) × Ostream) (n : ℕ) → size_of_output r ≡ ok n → r ≡ (ok tt, r.1)
size_of_output-ok (ok tt, s) n h = refl
size_of_output-ok (failed, s) n h = absurd (cc h)
size_of_output-ok (fault, s) n h = absurd (cc h)
size_of_output-ok (out_of_fuel, s) n h = absurd (cc h)

Settled-HasSize :
    {m : Encoder} (n : ℕ) → Settled m → size_of_output (m pb_ostream_sizing) ≡ ok n → HasSize m n
Settled-HasSize {m} n (writes bs w) h =
    let e : 0 + length bs ≡ length bs = omega arith in
    let first : m pb_ostream_sizing ≡ (ok tt, sizing (u64 (length bs))) =
      rw e at (w.sizes 0 (omega arith)) in
    let same : ok (u64 (length bs)) ≡ ok n = rw first at h in
    record { bytes = bs; written = w; counted = cc }
Settled-HasSize {m} n (refuses r) h =
    absurd (r 0 (omega arith) (ap (λ p. p.0) (size_of_output-ok (m pb_ostream_sizing) n h)))

module _ (program : Program) (mem : Memory) (sound : IsProgram program) (fuel fields src : ℕ) where
  -- Where `pb_get_encoded_size` returns a size, `pb_encode` writes one sequence of bytes, to
  -- sizing streams and memory buffers alike, and the size is the number of these bytes modulo 2
  -- ^ 64, for descriptors that fit their struct and user callbacks that are settled.
  pub pb_get_encoded_size-exact :
      (n : ℕ)
      → pb_get_encoded_size program mem fuel fields src ≡ ok n
      → HasSize (pb_encode program mem fuel fields src) n
  unfolding pb_get_encoded_size
  pb_get_encoded_size-exact n h =
      Settled-HasSize n (pb_encode-Settled program mem sound fuel fields src) h

  -- Where `pb_get_encoded_size` returns a size, `pb_encode_delimited` writes the size as a
  -- varint and then the bytes that `pb_encode` writes, for descriptors that fit their struct
  -- and user callbacks that are settled.
  pub pb_encode_delimited-Writes :
      (n : ℕ) (h : pb_get_encoded_size program mem fuel fields src ≡ ok n)
      → Writes
          (pb_encode_delimited program mem fuel fields src)
          (varint64 n ++ (pb_get_encoded_size-exact n h).bytes)
  unfolding pb_encode_delimited
  pb_encode_delimited-Writes n h =
      let exact = pb_get_encoded_size-exact n h in
      rw exact.counted (pb_encode_submessage-Writes exact.written)

  -- Where `pb_get_encoded_size` returns a size, `pb_encode_nullterminated` writes the bytes
  -- that `pb_encode` writes, and a zero, for descriptors that fit their struct and user
  -- callbacks that are settled.
  pub pb_encode_nullterminated-Writes :
      (n : ℕ) (h : pb_get_encoded_size program mem fuel fields src ≡ ok n)
      → Writes
          (pb_encode_nullterminated program mem fuel fields src)
          ((pb_get_encoded_size-exact n h).bytes ++ (0 ∷ []))
  unfolding pb_encode_nullterminated
  pb_encode_nullterminated-Writes n h =
      Writes-seq (pb_get_encoded_size-exact n h).written (Writes-pb_write (0 ∷ []))
