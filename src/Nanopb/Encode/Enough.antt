-- ===== src/Nanopb/Encode/Enough.antt =====
-- Enough fuel for `pb_encode`: two more than the nesting of the message types.
use spar_somnong.Common.{
  ℕ, zero, suc, ◌+◌, ◌<◌, ◌≤◌, ◌≡◌, ◌≢◌, refl, Bool-cases, inl, inr, ◌==◌, length, out_of_fuel,
  arith, ◌∙◌,
}
use spar_somnong.Nanopb.Memory.{Memory, Program}
use spar_somnong.Nanopb.Iter.{
  PbFieldIter, field_at, current, iter_at_start, pb_field_iter_begin, pb_field_iter_next,
}
use spar_somnong.Nanopb.Iter.Search.{IsTagged}
use spar_somnong.Nanopb.Ostream.{Ostream}
use spar_somnong.Nanopb.Encode.Array.{SubEncoder}
use spar_somnong.Nanopb.Encode.Ends.{Ends, Ends-return, Ends-seq}
use spar_somnong.Nanopb.Encode.EndsMessage.{IsRanked, field_at-IsBelow, turn, over, onward}
use spar_somnong.Nanopb.Encode.EndsProgram.{nonempty, Ends-encode_any}
use spar_somnong.Nanopb.Encode.Message.{encode_fields, pb_encode}

module _ (program : Program) (mem : Memory) (ranked : IsRanked program) where
  Ends-encode_fields :
      (encode : SubEncoder) (a fuel rounds : ℕ) (it : PbFieldIter)
      → ((b src : ℕ) → ranked.rank b < ranked.rank a → Ends (encode b src))
      → ranked.rank a < fuel
      → it.start ≡ program.fields_at a
      → it.pos < length it.start
      → length it.start ≤ it.pos + rounds
      → Ends (encode_fields program mem rounds fuel encode it)
  unfolding encode_fields
  Ends-encode_fields encode a fuel zero it h small same inside enough = absurd (omega arith)
  Ends-encode_fields encode a fuel (suc rounds) it h small same inside enough =
      let tags : IsTagged it.start = rw same (ranked.has_tags a) in
      let here =
        field_at-IsBelow ranked.rank (ranked.rank a) it.start it.pos (rw same (ranked.below a))
          inside in
      Ends-seq
        (Ends-encode_any program mem ranked fuel (ranked.rank a) encode (current it) here small
          (λ src e. h (current it).ptr src (here.inner e)) it.p_data)
        (elim (turn it tags inside) [
          | over e ↦ rw e Ends-return
          | onward e st ps more ↦ rw e (
              Ends-encode_fields encode a fuel rounds (pb_field_iter_next it).1 h small (st ∙ same)
                (rw (st, ps) more) (rw (st, ps) (omega arith)))
        ])

  Ends-pb_encode :
      (fuel fields src : ℕ)
      → ranked.rank fields + 1 < fuel
      → Ends (pb_encode program mem fuel fields src)
  unfolding pb_encode pb_field_iter_begin
  Ends-pb_encode zero fields src h = absurd (omega arith)
  Ends-pb_encode (suc fuel) fields src h =
      elim (Bool-cases ((field_at (program.fields_at fields) 0).tag == 0)) [
        | inl e ↦ rw e Ends-return
        | inr n ↦ rw n (
            Ends-encode_fields (pb_encode program mem fuel) fields fuel
              (length (program.fields_at fields)) (iter_at_start (program.fields_at fields) src)
              (λ b src' lt. Ends-pb_encode fuel b src' (omega (arith, lt))) (omega arith) refl
              (nonempty (program.fields_at fields) n) (omega arith))
      ]

  -- For message types that neither contain themselves nor have extension ranges, with callbacks
  -- that come to an end, and fuel of two more than the nesting of the types, `pb_encode` does
  -- not run out of fuel on any stream and any memory.
  pub pb_encode-ends :
      (fuel fields src : ℕ) (s : Ostream)
      → ranked.rank fields + 1 < fuel
      → (pb_encode program mem fuel fields src s).0 ≢ out_of_fuel
  pb_encode-ends fuel fields src s h = (Ends-pb_encode fuel fields src h).ends s
