-- ===== src/Nanopb/Encode/SubmessageSettled.antt =====
-- Submessages and arrays are settled where their parts are: both passes of `pb_encode_submessage`
-- write the same bytes.
use spar_somnong.Common.{
  ℕ, zero, suc, ◌+◌, ◌^◌, ◌<◌, ◌≡◌, ◌≢◌, refl, List, ◌++◌, length, arith, true, false, ltb, ◌==◌,
  Outcome, ok, failed, fault, out_of_fuel, le→ltb, lt→ltb,
}
use spar_somnong.Nanopb.Types.{u64}
use spar_somnong.Nanopb.Ostream.{Ostream, Encoder, raise, pb_write, pb_ostream_sizing}
use spar_somnong.Nanopb.Ostream.Writes.{Writes, Writes-seq, sizing, buffer}
use spar_somnong.Nanopb.Ostream.Values.{Writes-pb_encode_varint}
use spar_somnong.Nanopb.Ostream.Settled.{Settled, writes, refuses, Settled-return, Settled-seq}
use spar_somnong.Nanopb.Wire.{varint64}
use spar_somnong.Nanopb.Encode.Array.{
  second_pass, write_submessage, sized_submessage, pb_encode_submessage, for_items,
}

-- The second pass stores the bytes of the first.
module _ {encode : Encoder} {bs : List ℕ} (w : Writes encode bs) where
  second_pass_stores :
      (st : List ℕ) (mx bw : ℕ)
      → bw + length bs < 2 ^ 64
      → second_pass encode (length bs) (buffer st mx bw)
        ≡ (ok tt, buffer (st ++ bs) mx (bw + length bs))
  unfolding second_pass
  second_pass_stores st mx bw h =
      let total : u64 (bw + (0 + length bs)) ≡ bw + length bs = omega arith in
      let same : (0 + length bs == length bs) ≡ true = ground arith in
      rw (w.stores st (length bs) 0 (omega arith) (omega arith), total, same)

  write_submessage-Writes : Writes (write_submessage encode (u64 (length bs))) bs
  unfolding write_submessage pb_write
  write_submessage-Writes = record {
    sizes = λ bw h. let e : u64 (bw + u64 (length bs)) ≡ u64 (bw + length bs) = omega arith in rw e;
    stores = λ st mx bw h fits.
        let e : u64 (length bs) ≡ length bs = omega arith in
        let room : ltb mx (u64 (bw + length bs)) ≡ false = le→ltb _ _ (omega arith) in
        rw (e, room) (second_pass_stores st mx bw (omega arith));
    overflows = λ st mx bw h over small.
        let e : u64 (length bs) ≡ length bs = omega arith in
        let full : ltb mx (u64 (bw + length bs)) ≡ true = lt→ltb _ _ (omega arith) in
        rw (e, full)
          (unfold raise in record { status = refl; message = refl; in_bounds = omega arith });
  }

  -- Where `encode` writes `bs`, `pb_encode_submessage` writes the number of these bytes modulo
  -- 2 ^ 64 as a varint, and `bs`.
  pub pb_encode_submessage-Writes :
      Writes (pb_encode_submessage encode) (varint64 (u64 (length bs)) ++ bs)
  unfolding pb_encode_submessage
  pb_encode_submessage-Writes =
      let e : 0 + length bs ≡ length bs = omega arith in
      let first : encode pb_ostream_sizing ≡ (ok tt, sizing (u64 (length bs))) =
        rw e at (w.sizes 0 (omega arith)) in
      rw first (
        Writes-seq (Writes-pb_encode_varint (u64 (length bs)) (omega arith))
          write_submessage-Writes)

sized-ne-ok :
    (encode : Encoder) (r : Outcome (Unit {0}) × Ostream) (s : Ostream)
    → r.0 ≢ ok tt
    → (sized_submessage encode r s).0 ≢ ok tt
sized-ne-ok encode (ok a, sub) s h = absurd (h refl)
sized-ne-ok encode (failed, sub) s h = h
sized-ne-ok encode (fault, sub) s h = h
sized-ne-ok encode (out_of_fuel, sub) s h = h

pub pb_encode_submessage-Settled :
    {encode : Encoder} → Settled encode → Settled (pb_encode_submessage encode)
pb_encode_submessage-Settled (writes bs w) = writes _ (pb_encode_submessage-Writes w)
pb_encode_submessage-Settled {encode} (refuses r) =
    unfold pb_encode_submessage in
    refuses (λ bw h. sized-ne-ok encode (encode pb_ostream_sizing) (sizing bw) (r 0 (omega arith)))

module _ (item : ℕ → Encoder) (settled : (p : ℕ) → Settled (item p)) where
  pub for_items-Settled : (count size p : ℕ) → Settled (for_items count size p item)
  unfolding for_items
  for_items-Settled zero size p = Settled-return
  for_items-Settled (suc count) size p =
      Settled-seq (settled p) (for_items-Settled count size (u64 (p + size)))
