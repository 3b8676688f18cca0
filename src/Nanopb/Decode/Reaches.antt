-- ===== src/Nanopb/Decode/Reaches.antt =====
-- ios/Pods/nanopb/pb_decode.c: the loop of `pb_decode_noinit` as steps, and its bitmap as an
-- invariant of them.
use spar_somnong.Common.{
  ℕ, zero, suc, ◌≡◌, refl, Bool, true, false, Bool-cases, inl, inr, ◌==◌, List, [], ◌∷◌, Outcome,
  ok, failed, fault, out_of_fuel, resume, return, ◌>>=◌,
}
use spar_somnong.Nanopb.Istream.{Istream}
use spar_somnong.Nanopb.Istream.Varints.{EofOutcome}
use spar_somnong.Nanopb.Istream.Values.{pb_decode_tag}
use spar_somnong.Nanopb.Iter.{pb_field_iter_find}
use spar_somnong.Nanopb.Decode.Target.{Target, FieldAction}
use spar_somnong.Nanopb.Decode.Numbers.{FieldDecoder}
use spar_somnong.Nanopb.Decode.Host.{Host}
use spar_somnong.Nanopb.Decode.Message.{Scan, on_tag, decode_tagged, scan_loop}

module _ (host : Host) (submessage : FieldDecoder) (fuel size_at : ℕ) where
  -- The states of the loop that began with `from` and `start`, with the positions of the fields
  -- decoded so far, the last one first.
  pub data Reaches (from : Scan) (start : Target) : List ℕ → Scan → Target → Type 0 where
    at_start : Reaches from start [] from start
    at_eof :
        {ps : List ℕ} {sc : Scan} {t : Target} (s : Istream)
        → Reaches from start ps sc t
        → pb_decode_tag t.stream ≡ (failed, true, s)
        → Reaches from start ps sc (record t { stream = s })
    decoded :
        {ps : List ℕ} {sc : Scan} {t : Target} (wire_type tag : ℕ) (eof : Bool) (s : Istream)
        (sc' : Scan) (u : Target)
        → Reaches from start ps sc t
        → pb_decode_tag t.stream ≡ (ok (wire_type, tag), eof, s)
        → (pb_field_iter_find sc.it tag).0 ≡ true
        → decode_tagged host submessage fuel size_at sc wire_type tag (record t { stream = s })
          ≡ (ok sc', u)
        → Reaches from start ((pb_field_iter_find sc.it tag).1.pos ∷ ps) sc' u
    skipped :
        {ps : List ℕ} {sc : Scan} {t : Target} (wire_type tag : ℕ) (eof : Bool) (s : Istream)
        (sc' : Scan) (u : Target)
        → Reaches from start ps sc t
        → pb_decode_tag t.stream ≡ (ok (wire_type, tag), eof, s)
        → (pb_field_iter_find sc.it tag).0 ≡ false
        → decode_tagged host submessage fuel size_at sc wire_type tag (record t { stream = s })
          ≡ (ok sc', u)
        → Reaches from start ps sc' u

  module _ (from : Scan) (start : Target) where
    -- The result of the loop is a state that it reaches.
    pub record Run (sc : Scan) (t : Target) : Type 0 where
      pub visited : List ℕ
      pub reached : Reaches from start visited sc t

    abbrev pub Continues : (Scan → FieldAction Scan) → Type 0
    Continues k =
        (ps : List ℕ) (sc : Scan) (t : Target) (sc' : Scan) (u : Target)
        → Reaches from start ps sc t
        → k sc t ≡ (ok sc', u)
        → Run sc' u

    stopped :
        (ps : List ℕ) (sc : Scan) (t : Target) (sc' : Scan) (u : Target)
        → Reaches from start ps sc t
        → Path (Outcome Scan × Target) (ok sc, t) (ok sc', u)
        → Run sc' u
    stopped ps sc t sc' u reach p =
        let same : sc ≡ sc' = cc p in
        let there : t ≡ u = cc p in record { visited = ps; reached = rw (same, there) at reach }

    tagged-Run :
        (k : Scan → FieldAction Scan) (ps : List ℕ) (sc : Scan) (t : Target) (wire_type tag : ℕ)
        (eof : Bool) (s : Istream) (sc' : Scan) (u : Target) (r : Outcome Scan × Target)
        → Continues k
        → Reaches from start ps sc t
        → pb_decode_tag t.stream ≡ (ok (wire_type, tag), eof, s)
        → decode_tagged host submessage fuel size_at sc wire_type tag (record t { stream = s }) ≡ r
        → resume r k ≡ (ok sc', u)
        → Run sc' u
    tagged-Run k ps sc t wire_type tag eof s sc' u (ok sc1, t1) h reach e step last =
        elim (Bool-cases (pb_field_iter_find sc.it tag).0) [
          | inl y ↦ h _ sc1 t1 sc' u (decoded wire_type tag eof s sc1 t1 reach e y step) last
          | inr n ↦ h _ sc1 t1 sc' u (skipped wire_type tag eof s sc1 t1 reach e n step) last
        ]
    tagged-Run k ps sc t wire_type tag eof s sc' u (failed, t1) h reach e step last =
        absurd (cc last)
    tagged-Run k ps sc t wire_type tag eof s sc' u (fault, t1) h reach e step last =
        absurd (cc last)
    tagged-Run k ps sc t wire_type tag eof s sc' u (out_of_fuel, t1) h reach e step last =
        absurd (cc last)

    on_tag-Run :
        (k : Scan → FieldAction Scan) (ps : List ℕ) (sc : Scan) (t : Target)
        (tag : EofOutcome (ℕ × ℕ)) (sc' : Scan) (u : Target)
        → Continues k
        → Reaches from start ps sc t
        → pb_decode_tag t.stream ≡ tag
        → on_tag tag
            (return sc)
            (λ wire_type tag'. decode_tagged host submessage fuel size_at sc wire_type tag' >>= k)
            t
          ≡ (ok sc', u)
        → Run sc' u
    on_tag-Run k ps sc t (ok (wire_type, tag), eof, s) sc' u h reach e last =
        tagged-Run k ps sc t wire_type tag eof s sc' u
          (decode_tagged host submessage fuel size_at sc wire_type tag (record t { stream = s })) h
          reach e refl last
    on_tag-Run k ps sc t (failed, true, s) sc' u h reach e last =
        stopped ps sc (record t { stream = s }) sc' u (at_eof s reach e) last
    on_tag-Run k ps sc t (failed, false, s) sc' u h reach e last = absurd (cc last)
    on_tag-Run k ps sc t (fault, eof, s) sc' u h reach e last = absurd (cc last)
    on_tag-Run k ps sc t (out_of_fuel, eof, s) sc' u h reach e last = absurd (cc last)

    pub scan_loop-Run : (rounds : ℕ) → Continues (scan_loop host submessage fuel size_at rounds)
    unfolding scan_loop
    scan_loop-Run zero ps sc t sc' u reach e = elim (Bool-cases (t.stream.bytes_left == 0)) [
      | inl y ↦ stopped ps sc t sc' u reach (rw y at e)
      | inr n ↦ absurd (cc (rw n at e))
    ]
    scan_loop-Run (suc rounds) ps sc t sc' u reach e =
        elim (Bool-cases (t.stream.bytes_left == 0)) [
          | inl y ↦ stopped ps sc t sc' u reach (rw y at e)
          | inr n ↦
              on_tag-Run (scan_loop host submessage fuel size_at rounds) ps sc t
                (pb_decode_tag t.stream) sc' u (scan_loop-Run rounds) reach refl (rw n at e)
        ]
