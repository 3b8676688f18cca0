-- ===== src/Nanopb/Decode/Enough.antt =====
-- Enough fuel for `pb_decode`: two more than the nesting of the message types.
use spar_somnong.Common.{ℕ, zero, suc, ◌+◌, ◌<◌, refl, ◌==◌, Outcome, ok, failed, return, arith}
use spar_somnong.Nanopb.Types.{PbField, pb_htype, invalid_field_descriptor}
use spar_somnong.Nanopb.Htype
use spar_somnong.Nanopb.Decode.Target.{Target, FieldAction, refuse}
use spar_somnong.Nanopb.Decode.Heap.{on_memory}
use spar_somnong.Nanopb.Decode.Initial.{pb_message_set_to_defaults}
use spar_somnong.Nanopb.Decode.Release.{pb_release}
use spar_somnong.Nanopb.Decode.Host.{Host}
use spar_somnong.Nanopb.Decode.Substream.{close_and_return}
use spar_somnong.Nanopb.Decode.Message.{
  release_failed, decode_initialized, pb_dec_submessage, pb_decode_noinit, pb_decode,
}
use spar_somnong.Nanopb.Decode.Done.{pb_message_set_to_defaults-Finishes}
use spar_somnong.Nanopb.Decode.ReleaseDone.{pb_release-Finishes}
use spar_somnong.Nanopb.Decode.Advances.{
  Advances, went_on, refused, broke, Advances-refuse, Advances-return, Advances-later,
  Advances-on_memory, Advances-bind,
}
use spar_somnong.Nanopb.Decode.Ending.{
  Ending, Ending-if, close_and_return-Ending, ok-Ending, failed-Ending, with_substream-Advances,
}
use spar_somnong.Nanopb.Decode.EndingField.{IsRankedHost, TakesAt}
use spar_somnong.Nanopb.Decode.EndingMessage.{decode_fields-Ending}

release_failed-Advances :
    (release : FieldAction (Unit {0})) (t : Target) (r : Outcome (Unit {0}) × Target)
    → Ending release
    → Advances 0 t r
    → Advances 0 t (release_failed release r)
release_failed-Advances release t r h (went_on a u le e) = rw e (went_on tt u le refl)
release_failed-Advances release t r h (refused u le e) = rw e (
    Advances-later 0 0 t u _ (omega arith) (omega arith)
      (Advances-bind release (λ _ t'. (failed, t')) 0 u (h u) (λ a v le'. failed-Ending v)))
release_failed-Advances release t r h (broke u le e) = rw e (broke u le refl)

module _ (host : Host) (ranked : IsRankedHost host) where
  decode_initialized-Ending :
      (fuel : ℕ) (noinit : FieldAction (Unit {0})) (fields dest : ℕ)
      → ranked.rank fields < fuel
      → Ending noinit
      → Ending (decode_initialized host fuel noinit fields dest)
  unfolding decode_initialized
  decode_initialized-Ending fuel noinit fields dest lt h t =
      let defaults = pb_message_set_to_defaults host.program fuel fields dest in
      let release = pb_release host.program host.free fuel fields dest in
      Advances-bind (on_memory defaults) _ 0 t
        (Advances-on_memory defaults t (
          pb_message_set_to_defaults-Finishes host.program ranked.rank ranked.has_tags ranked.below
            fuel fields dest lt))
        (λ a u le.
          release_failed-Advances (on_memory release) u (noinit u)
            (λ v. Advances-on_memory release v (
              pb_release-Finishes host.program host.free ranked.rank ranked.has_tags ranked.below
                fuel fields dest lt))
            (h u))

  pb_dec_submessage-TakesAt :
      (fuel : ℕ) (noinit : ℕ → ℕ → FieldAction (Unit {0})) (field : PbField)
      → ranked.rank field.ptr < fuel
      → ((dest : ℕ) → Ending (noinit field.ptr dest))
      → TakesAt (pb_dec_submessage host fuel noinit) field
  unfolding pb_dec_submessage
  pb_dec_submessage-TakesAt fuel noinit field lt h dest t =
      with_substream-Advances _ _ t
        (Ending-if (field.ptr == 0) (return tt) _ (Advances-return tt) (
          Ending-if (pb_htype field.type == Htype.repeated)
            (decode_initialized host fuel (noinit field.ptr dest) field.ptr dest)
            (noinit field.ptr dest)
            (decode_initialized-Ending fuel (noinit field.ptr dest) field.ptr dest lt (h dest))
            (h dest)))
        (λ sub.
          Ending-if (field.ptr == 0) (refuse invalid_field_descriptor)
            (close_and_return sub (ok tt)) (λ u. Advances-refuse 0 u invalid_field_descriptor)
            (close_and_return-Ending sub (ok tt) ok-Ending))
        (λ sub.
          Ending-if (field.ptr == 0) (refuse invalid_field_descriptor) (close_and_return sub failed)
            (λ u. Advances-refuse 0 u invalid_field_descriptor)
            (close_and_return-Ending sub failed failed-Ending))

  pb_decode_noinit-Ending :
      (fuel fields dest : ℕ)
      → ranked.rank fields + 1 < fuel
      → Ending (pb_decode_noinit host fuel fields dest)
  unfolding pb_decode_noinit
  pb_decode_noinit-Ending zero fields dest lt = absurd (omega arith)
  pb_decode_noinit-Ending (suc fuel) fields dest lt =
      decode_fields-Ending host ranked (pb_dec_submessage host fuel (pb_decode_noinit host fuel))
        fuel (ranked.rank fields) (omega arith)
        (λ field lower.
          pb_dec_submessage-TakesAt fuel (pb_decode_noinit host fuel) field (omega arith)
            (λ dest'. pb_decode_noinit-Ending fuel field.ptr dest' (omega arith)))
        (host.fixed_count_size_at fuel) (host.program.fields_at fields) (ranked.below fields) dest

  -- For message types that neither contain themselves nor have extension ranges, with user
  -- callbacks that come to an end and take a byte where one is left, and fuel of two more than
  -- the nesting of the types, `pb_decode` comes to an end on every stream, a user's included,
  -- and every memory: it returns, fails, or calls a null pointer or divides by zero, and the
  -- stream has no more bytes left than before.
  pub pb_decode-Advances :
      (fuel fields dest : ℕ) (t : Target)
      → ranked.rank fields + 1 < fuel
      → Advances 0 t (pb_decode host fuel fields dest t)
  unfolding pb_decode
  pb_decode-Advances fuel fields dest t lt =
      decode_initialized-Ending fuel (pb_decode_noinit host fuel fields dest) fields dest
        (omega arith) (pb_decode_noinit-Ending fuel fields dest lt) t
