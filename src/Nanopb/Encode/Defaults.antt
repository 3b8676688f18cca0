-- ===== src/Nanopb/Encode/Defaults.antt =====
-- ios/Pods/nanopb/pb_encode.c: the test for a proto3 field that is left out.
use spar_somnong.Common.{
  ℕ, zero, suc, ◌+◌, Bool, true, false, not, ◌&&◌, length, ◌==◌, if◌then◌else◌, Outcome, ok, failed,
  fault, out_of_fuel,
}
use spar_somnong.Nanopb.Types.{PbField, pb_ltype, pb_htype, pb_atype}
use spar_somnong.Nanopb.Ltype
use spar_somnong.Nanopb.Htype
use spar_somnong.Nanopb.Atype
use spar_somnong.Nanopb.Memory.{Memory, Program, load, load_size, load_bool}
use spar_somnong.Nanopb.Iter.{
  PbFieldIter, current, size_address, pb_field_iter_begin, pb_field_iter_next,
}

-- Whether the `n` bytes from `p` on are zero.
unfoldable pub all_zero : Memory → ℕ → ℕ → Bool
all_zero mem zero p = true
all_zero mem (suc n) p = load mem 1 p == 0 && all_zero mem n (p + 1)

-- `if (!test) return false;`, and what follows it.
abbrev pub unless_false : Outcome Bool → Outcome Bool → Outcome Bool
unless_false (ok true) rest = rest
unless_false (ok false) rest = ok false
unless_false failed rest = failed
unless_false fault rest = fault
unless_false out_of_fuel rest = out_of_fuel

-- The loop over the fields of a submessage; `check` is the test of one field.
unfoldable pub all_default : (PbField → ℕ → Outcome Bool) → ℕ → PbFieldIter → Outcome Bool
all_default check zero it = out_of_fuel
all_default check (suc fuel) it =
    let next = pb_field_iter_next it in
    let more = all_default check fuel next.1 in
    unless_false (check (current it) it.p_data) (if next.0 then more else ok true)

module _ (program : Program) (mem : Memory) where
  unfoldable pub submessage_default : (PbField → ℕ → Outcome Bool) → PbField → ℕ → Outcome Bool
  submessage_default check field p_data =
      let fields = program.fields_at field.ptr in
      let begun = pb_field_iter_begin fields p_data in
      if begun.0 then all_default check (length fields) begun.1 else ok true

  -- Singular fields of proto3.
  unfoldable pub singular_default : (PbField → ℕ → Outcome Bool) → PbField → ℕ → Outcome Bool
  singular_default check field p_data =
      let ltype = pb_ltype field.type in
      if not (pb_atype field.type == Atype.static)
      then ok (all_zero mem field.data_size p_data)
      else (if ltype == Ltype.bytes
          then ok (load_size mem p_data == 0)
          else (if ltype == Ltype.string
              then ok (load mem 1 p_data == 0)
              else (if ltype == Ltype.fixed_length_bytes
                  then ok (field.data_size == 0)
                  else (if ltype == Ltype.submessage
                      then submessage_default check field p_data
                      else ok (all_zero mem field.data_size p_data)))))

  unfoldable pub field_default : (PbField → ℕ → Outcome Bool) → PbField → ℕ → Outcome Bool
  field_default check field p_data =
      let htype = pb_htype field.type in
      let p_size = size_address p_data field in
      if htype == Htype.required
      then ok false
      else (if htype == Htype.repeated
          then ok (load_size mem p_size == 0)
          else (if htype == Htype.oneof
              then ok (load_size mem p_size == 0)
              else (if htype == Htype.optional && not (field.size_offset == 0)
                  then ok (not (load_bool mem p_size))
                  else singular_default check field p_data)))

  -- The fuel bounds the nesting of static submessages.
  unfoldable pub pb_check_proto3_default_value : ℕ → PbField → ℕ → Outcome Bool
  pb_check_proto3_default_value zero field p_data = out_of_fuel
  pb_check_proto3_default_value (suc fuel) field p_data =
      field_default (pb_check_proto3_default_value fuel) field p_data
