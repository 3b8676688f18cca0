-- ===== src/Nanopb/Decode/EndingCallback.antt =====
-- ios/Pods/nanopb/pb_decode.c: `decode_callback_field` comes to an end with callbacks that take
-- bytes.
use spar_somnong.Common.{
  ℕ, zero, suc, ◌+◌, ◌<◌, ◌≡◌, refl, true, Bool-cases, inl, inr, ◌||◌, ◌==◌, Outcome, ok, arith,
}
use spar_somnong.Nanopb.Types.{PbField, wt_string, callback_failed}
use spar_somnong.Nanopb.Memory.{load_pointer, callback_arg}
use spar_somnong.Nanopb.Istream.{Istream, pb_istream_from_buffer}
use spar_somnong.Nanopb.Istream.ProgressValues.{pb_skip_field-Progress}
use spar_somnong.Nanopb.Istream.ProgressSubstream.{
  pb_make_string_substream-Progress, read_raw_value-Progress,
}
use spar_somnong.Nanopb.Istream.Values.{pb_skip_field, read_raw_value, pb_make_string_substream}
use spar_somnong.Nanopb.Iter.{PbFieldIter, current}
use spar_somnong.Nanopb.Decode.Target.{Target, FieldAction, on_stream}
use spar_somnong.Nanopb.Decode.Host.{Host}
use spar_somnong.Nanopb.Decode.Callback.{
  raw_size, back_to, callback_loop, close_callback, callback_string, callback_scalar,
  decode_callback_field,
}
use spar_somnong.Nanopb.Decode.Advances.{
  Advances, went_on, refused, broke, Advances-refuse, Advances-return, Advances-later,
  Advances-weaken, Advances-either, Advances-on_stream, Advances-bind,
}
use spar_somnong.Nanopb.Decode.Ending.{Ending, close_and_return-Ending, ok-Ending}

-- A callback comes to an end, and where there are bytes left it takes one or fails.
pub record Consumes (callback : FieldAction (Unit {0})) : Type 0 where
  pub ending : Ending callback
  pub takes : (t : Target) → 0 < t.stream.bytes_left → Advances 1 t (callback t)

module _ (callback : FieldAction (Unit {0})) (consumes : Consumes callback) where
  callback_loop-Ending :
      (rounds : ℕ) (t : Target)
      → t.stream.bytes_left < rounds
      → Advances 0 t (callback_loop rounds callback t)
  unfolding callback_loop
  callback_loop-Ending zero t lt = absurd (omega arith)
  callback_loop-Ending (suc rounds) t lt = elim (Bool-cases (t.stream.bytes_left == 0)) [
    | inl e ↦ Advances-bind callback _ 0 t (consumes.ending t) (λ a u le.
        let none_left : (u.stream.bytes_left == 0) ≡ true = ground arith in
        rw none_left (Advances-return tt u))
    | inr n ↦ Advances-weaken 1 0 t _ (omega arith) (
        Advances-bind callback _ 1 t (consumes.takes t (ground arith)) (λ a u le.
          Advances-either (u.stream.bytes_left == 0) (ok tt, u) (callback_loop rounds callback u)
            (Advances-return tt u) (callback_loop-Ending rounds u (omega arith))))
  ]

  close_callback-Advances :
      (r : Outcome (Unit {0}) × Target) (s : Istream) (u t : Target)
      → t.stream ≡ s
      → Advances 0 u r
      → Advances 0 t (close_callback r s)
  close_callback-Advances r s u t same (went_on a v h e) = rw e (
      Advances-later 0 0 t (record v { stream = s }) _ (rw same (omega arith)) (omega arith)
        (close_and_return-Ending v.stream (ok tt) ok-Ending (record v { stream = s })))
  close_callback-Advances r s u t same (refused v h e) = rw e (
      Advances-later 0 0 t (record v { stream = s }) _ (rw same (omega arith)) (omega arith)
        (Advances-refuse 0 (record v { stream = s }) callback_failed))
  close_callback-Advances r s u t same (broke v h e) =
      rw e (broke (record v { stream = s }) (rw same (omega arith)) refl)

  callback_string-Ending : (idle : ℕ) → Ending (callback_string idle callback)
  unfolding callback_string
  callback_string-Ending idle t = Advances-weaken 1 0 t _ (omega arith) (
      Advances-bind (on_stream pb_make_string_substream) _ 1 t
        (Advances-on_stream pb_make_string_substream 1 t
          (pb_make_string_substream-Progress t.stream))
        (λ sub u le.
          close_callback-Advances
            (callback_loop (suc (idle + sub.bytes_left)) callback (record u { stream = sub }))
            u.stream (record u { stream = sub }) u refl
            (callback_loop-Ending (suc (idle + sub.bytes_left)) (record u { stream = sub })
              (omega arith))))

  back_to-Advances :
      (s : Istream) (u t : Target) (r : Outcome (Unit {0}) × Target)
      → t.stream ≡ s
      → Advances 0 u r
      → Advances 0 t (back_to s r)
  back_to-Advances s u t r same (went_on a v h e) = rw e (went_on tt _ (rw same (omega arith)) refl)
  back_to-Advances s u t r same (refused v h e) = rw e (refused _ (rw same (omega arith)) refl)
  back_to-Advances s u t r same (broke v h e) = rw e (broke _ (rw same (omega arith)) refl)

  callback_scalar-Ending : (wire_type : ℕ) → Ending (callback_scalar wire_type callback)
  unfolding callback_scalar
  callback_scalar-Ending wire_type t =
      Advances-bind (on_stream (read_raw_value wire_type 10)) _ 0 t
        (Advances-on_stream (read_raw_value wire_type 10) 0 t
          (read_raw_value-Progress wire_type 10 t.stream))
        (λ bytes u le.
          let sub : Istream = pb_istream_from_buffer bytes (raw_size wire_type bytes) in
          back_to-Advances u.stream (record u { stream = sub }) u
            (callback (record u { stream = sub })) refl
            (consumes.ending (record u { stream = sub })))

pub decode_callback_field-Ending :
    (host : Host) (wire_type : ℕ) (it : PbFieldIter)
    → ((function : ℕ) (field : PbField) (arg : ℕ)
        → Consumes (host.decode_callback function field arg))
    → Ending (decode_callback_field host wire_type it)
unfolding decode_callback_field
decode_callback_field-Ending host wire_type it h t =
    let function = load_pointer t.memory it.p_data in
    let callback = host.decode_callback function (current it) (it.p_data + callback_arg) in
    let consumes = h function (current it) (it.p_data + callback_arg) in
    Advances-either (it.p_data == 0 || function == 0) (on_stream (pb_skip_field wire_type) t) _
      (Advances-on_stream (pb_skip_field wire_type) 0 t (pb_skip_field-Progress wire_type t.stream))
      (Advances-either (wire_type == wt_string) (callback_string host.idle_calls callback t)
        (callback_scalar wire_type callback t)
        (callback_string-Ending callback consumes host.idle_calls t)
        (callback_scalar-Ending callback consumes wire_type t))
