-- ===== src/Nanopb/Ostream/Writes.antt =====
-- What it is for an encoder to write given bytes: on a sizing stream it counts them, in a memory
-- buffer with room it stores them, and in a buffer without room it fails inside the buffer.
use spar_somnong.Common.{
  ℕ, ◌+◌, ◌-◌, ◌^◌, ◌≤◌, ◌<◌, ◌≡◌, refl, List, [], ◌++◌, append-nil, append_assoc, length,
  length-append, take-length, none, some, ok, failed, fault, out_of_fuel, Outcome, resume, ◌≢◌,
  ◌>>◌, return, true, false, ltb, ltb→le, ltb→lt, le→ltb, lt→ltb, Bool-cases, inl, inr, arith,
}
use spar_somnong.Nanopb.Types.{u64, stream_full}
use spar_somnong.Nanopb.Ostream.{Ostream, Encoder, no_callback, buf_write, pb_write}

-- A sizing stream that has counted `bw` bytes.
abbrev pub sizing : ℕ → Ostream
sizing bw = record {
  callback = no_callback;
  state = [];
  max_size = 0;
  bytes_written = bw;
  errmsg = none;
}

-- A memory buffer of `mx` bytes: `bw` are counted and `st` are stored.
abbrev pub buffer : List ℕ → ℕ → ℕ → Ostream
buffer st mx bw = record {
  callback = buf_write;
  state = st;
  max_size = mx;
  bytes_written = bw;
  errmsg = none;
}

-- The call failed for want of room, and stored at most `room` bytes behind `st`.
pub record Overflows (st : List ℕ) (room : ℕ) (r : Outcome (Unit {0}) × Ostream) : Type 0 where
  pub status : r.0 ≡ failed
  pub message : r.1.errmsg ≡ some stream_full
  pub in_bounds : length r.1.state ≤ length st + room

pub record Writes (m : Encoder) (bs : List ℕ) : Type 0 where
  pub sizes : (bw : ℕ) → bw < 2 ^ 64 → m (sizing bw) ≡ (ok tt, sizing (u64 (bw + length bs)))
  pub stores :
      (st : List ℕ) (mx bw : ℕ)
      → mx < 2 ^ 64
      → bw + length bs ≤ mx
      → m (buffer st mx bw) ≡ (ok tt, buffer (st ++ bs) mx (bw + length bs))
  pub overflows :
      (st : List ℕ) (mx bw : ℕ)
      → bw ≤ mx
      → mx < bw + length bs
      → bw + length bs < 2 ^ 64
      → Overflows st (mx - bw) (m (buffer st mx bw))

pub Writes-pb_write : (bs : List ℕ) → Writes (pb_write bs (length bs)) bs
unfolding pb_write
Writes-pb_write bs = record {
  sizes = λ bw h. refl;
  stores = λ st mx bw h fits.
      let room : ltb mx (u64 (bw + length bs)) ≡ false = le→ltb _ _ (omega arith) in
      let small : u64 (bw + length bs) ≡ bw + length bs = omega arith in
      rw (room, small, take-length);
  overflows = λ st mx bw h over small.
      let full : ltb mx (u64 (bw + length bs)) ≡ true = lt→ltb _ _ (omega arith) in
      rw full (record { status = refl; message = refl; in_bounds = omega arith });
}

pub Writes-return : Writes (return tt) []
Writes-return = record {
  sizes = λ bw h. let e : u64 (bw + 0) ≡ bw = omega arith in rw e;
  stores = λ st mx bw h fits. let e : bw + 0 ≡ bw = omega arith in rw (append-nil, e);
  overflows = λ st mx bw h over small. absurd (omega arith);
}

pub Overflows-resume :
    {st : List ℕ} {room : ℕ} (r : Outcome (Unit {0}) × Ostream) (k : Unit {0} → Encoder)
    → Overflows st room r
    → Overflows st room (resume r k)
Overflows-resume (ok a, s) k o = absurd (ok-ne-failed o.status)
  where
    ok-ne-failed : {a : Unit {0}} → ok a ≢ failed
    ok-ne-failed e = cc
Overflows-resume (failed, s) k o = o
Overflows-resume (fault, s) k o = o
Overflows-resume (out_of_fuel, s) k o = o

Overflows-weaken :
    (st xs : List ℕ) {room room' : ℕ} {r : Outcome (Unit {0}) × Ostream}
    → Overflows (st ++ xs) room r
    → length xs + room ≤ room'
    → Overflows st room' r
Overflows-weaken st xs o h = record {
  status = o.status;
  message = o.message;
  in_bounds = omega (arith, o.in_bounds, length-append st xs);
}

module _ {m n : Encoder} {xs ys : List ℕ} (wm : Writes m xs) (wn : Writes n ys) where
  seq_sizes :
      (bw : ℕ) → bw < 2 ^ 64 → (m >> n) (sizing bw) ≡ (ok tt, sizing (u64 (bw + length (xs ++ ys))))
  seq_sizes bw h =
      let total : u64 (u64 (bw + length xs) + length ys) ≡ u64 (bw + length (xs ++ ys)) =
        omega (arith, length-append xs ys) in
      rw (wm.sizes bw h, wn.sizes (u64 (bw + length xs)) (omega arith), total)

  seq_stores :
      (st : List ℕ) (mx bw : ℕ)
      → mx < 2 ^ 64
      → bw + length (xs ++ ys) ≤ mx
      → (m >> n) (buffer st mx bw) ≡ (ok tt, buffer (st ++ (xs ++ ys)) mx (bw + length (xs ++ ys)))
  seq_stores st mx bw h fits =
      let total : bw + length xs + length ys ≡ bw + length (xs ++ ys) =
        omega (arith, length-append xs ys) in
      rw (
        wm.stores st mx bw h (omega arith),
        wn.stores (st ++ xs) mx (bw + length xs) h (omega arith),
        total,
        append_assoc,
      )

  seq-Overflows :
      (st : List ℕ) (mx bw : ℕ)
      → bw ≤ mx
      → mx < bw + length (xs ++ ys)
      → bw + length (xs ++ ys) < 2 ^ 64
      → Overflows st (mx - bw) ((m >> n) (buffer st mx bw))
  seq-Overflows st mx bw h over small = elim (Bool-cases (ltb mx (bw + length xs))) [
    | inl full ↦
        Overflows-resume (m (buffer st mx bw)) (λ _. n)
          (wm.overflows st mx bw h (ltb→lt _ _ full) (omega (arith, length-append xs ys)))
    | inr room ↦
        let fits : bw + length xs ≤ mx = ltb→le _ _ room in
        let rest =
          wn.overflows (st ++ xs) mx (bw + length xs) fits (omega (arith, length-append xs ys))
            (omega (arith, length-append xs ys)) in
        rw (wm.stores st mx bw (omega (arith, length-append xs ys)) fits)
          (Overflows-weaken st xs rest (omega arith))
  ]

  pub Writes-seq : Writes (m >> n) (xs ++ ys)
  Writes-seq = record { sizes = seq_sizes; stores = seq_stores; overflows = seq-Overflows }
