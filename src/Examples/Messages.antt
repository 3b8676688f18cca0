-- ===== src/Examples/Messages.antt =====
-- A message with a number and a submessage of two words, as the encoder of ios/Pods/nanopb meets it.
use spar_somnong.Common.{
  out_of_fuel, ◌≢◌, ℕ, zero, suc, ◌-◌, ◌≡◌, refl, List, [], ◌∷◌, ◌++◌, get_or, All, arith, ok,
  return,
}
use spar_somnong.Nanopb.Types.{PbField, pb_ltype, pb_htype, pb_atype, sign_extend}
use spar_somnong.Nanopb.Memory.{Memory, Program, load, load_pointer, load_size}
use spar_somnong.Nanopb.Iter.{
  pb_field_iter_begin, pb_field_iter_next, advance, in_same_union, size_in_struct, iter_at_start,
  pb_field_iter_find,
}
use spar_somnong.Nanopb.Iter.Wanted.{Search}
use spar_somnong.Nanopb.Iter.Search.{IsTagged, pb_field_iter_find-Search}
use spar_somnong.Nanopb.Wire.{varint64}
use spar_somnong.Nanopb.Ostream.Writes.{Writes, Writes-pb_write}
use spar_somnong.Nanopb.Encode.Ends.{Ends-return}
use spar_somnong.Nanopb.Encode.EndsMessage.{IsBelow, IsRanked}
use spar_somnong.Nanopb.Encode.Enough.{pb_encode-ends}
use spar_somnong.Nanopb.Ostream.{
  pb_ostream_from_buffer, pb_write, pb_encode_tag, pb_encode_varint, varint_groups, clear_last,
  pb_encode_fixed32,
}
use spar_somnong.Nanopb.Ostream.Settled.{Settled, Settled-return}
use spar_somnong.Nanopb.Encode.Bounds.{IsField}
use spar_somnong.Nanopb.Encode.Array.{
  pb_encode_submessage, pb_encoders, pb_enc_submessage, write_submessage, second_pass, encode_array,
  encode_packed, packed_items, for_items, write_packed,
}
use spar_somnong.Nanopb.Encode.Fields.{
  enc_scalar, pb_enc_uvarint, pb_enc_fixed32, pb_encode_tag_for_field,
}
use spar_somnong.Nanopb.Encode.Message.{
  encode_fields, encode_any, encode_field, encode_basic_field, implicit_has, encode_by_rule,
  encode_repeated, tagged, pb_encode, pb_encode_delimited, pb_encode_nullterminated,
  pb_get_encoded_size,
}
use spar_somnong.Nanopb.Encode.SubmessageSettled.{pb_encode_submessage-Writes}
use spar_somnong.Nanopb.Encode.MessageSettled.{IsProgram, pb_encode-Settled}
use spar_somnong.Nanopb.Encode.Size.{
  HasSize, pb_get_encoded_size-exact, pb_encode_delimited-Writes, pb_encode_nullterminated-Writes,
}

abbrev pub number : PbField
number = record {
  tag = 1;
  type = 0x01;
  data_offset = 0;
  size_offset = 0;
  data_size = 4;
  array_size = 0;
  ptr = 0;
}

abbrev pub pair : PbField
pair = record {
  tag = 2;
  type = 0x07;
  data_offset = 0;
  size_offset = 0;
  data_size = 8;
  array_size = 0;
  ptr = 2;
}

abbrev pub words : PbField
words = record {
  tag = 1;
  type = 0x23;
  data_offset = 0;
  size_offset = 0;
  data_size = 4;
  array_size = 2;
  ptr = 0;
}

abbrev pub table : ℕ → List PbField
table zero = []
table (suc zero) = number ∷ pair ∷ []
table (suc (suc zero)) = words ∷ []
table (suc (suc (suc a))) = []

abbrev pub program : Program
program = record {
  fields_at = table;
  encode_callback = λ function field arg. return tt;
  encode_extension = λ function extension. return tt;
}

abbrev memory : Memory
memory a = get_or (0x2C ∷ 0x01 ∷ 0 ∷ 0 ∷ 1 ∷ 0 ∷ 0 ∷ 0 ∷ 2 ∷ 0 ∷ 0 ∷ 0 ∷ []) (a - 100) 0

number-IsField : IsField number
number-IsField = record { tag = omega arith; data_size = omega arith; array_size = omega arith }

pair-IsField : IsField pair
pair-IsField = record { tag = omega arith; data_size = omega arith; array_size = omega arith }

words-IsField : IsField words
words-IsField = record { tag = omega arith; data_size = omega arith; array_size = omega arith }

table-IsField : (a : ℕ) → All IsField (table a)
table-IsField zero = tt
table-IsField (suc zero) = (number-IsField, (pair-IsField, tt))
table-IsField (suc (suc zero)) = (words-IsField, tt)
table-IsField (suc (suc (suc a))) = tt

sound : IsProgram program
sound = record {
  tables = table-IsField;
  callbacks = λ function field arg. Settled-return;
  extensions = λ function extension. Settled-return;
}

sample_size : pb_get_encoded_size program memory 3 1 100 ≡ ok 15
unfolding pb_get_encoded_size pb_encode pb_field_iter_begin pb_field_iter_next advance in_same_union
    size_in_struct encode_fields encode_any encode_field encode_basic_field implicit_has
    encode_by_rule encode_repeated tagged pb_encoders pb_enc_submessage pb_encode_submessage
    write_submessage second_pass encode_array encode_packed packed_items for_items write_packed
    enc_scalar pb_enc_uvarint pb_enc_fixed32 pb_encode_tag_for_field pb_encode_tag pb_encode_varint
    varint_groups clear_last pb_write pb_encode_fixed32 load load_pointer load_size pb_ltype
    pb_htype pb_atype sign_extend
sample_size = refl

-- The whole message has an exact size.
pb_get_encoded_size-exact_example : HasSize (pb_encode program memory 3 1 100) 15
pb_get_encoded_size-exact_example =
    pb_get_encoded_size-exact program memory sound 3 1 100 15 sample_size

pb_encode_delimited-Writes_example :
    Writes
      (pb_encode_delimited program memory 3 1 100)
      (varint64 15 ++ (pb_get_encoded_size-exact program memory sound 3 1 100 15 sample_size).bytes)
pb_encode_delimited-Writes_example =
    pb_encode_delimited-Writes program memory sound 3 1 100 15 sample_size

pb_encode_nullterminated-Writes_example :
    Writes
      (pb_encode_nullterminated program memory 3 1 100)
      ((pb_get_encoded_size-exact program memory sound 3 1 100 15 sample_size).bytes ++ (0 ∷ []))
pb_encode_nullterminated-Writes_example =
    pb_encode_nullterminated-Writes program memory sound 3 1 100 15 sample_size

pb_encode-Settled_example : Settled (pb_encode program memory 3 1 100)
pb_encode-Settled_example = pb_encode-Settled program memory sound 3 1 100

pb_encode_submessage-Writes_example :
    Writes (pb_encode_submessage (pb_write (7 ∷ 8 ∷ []) 2)) (varint64 2 ++ (7 ∷ 8 ∷ []))
pb_encode_submessage-Writes_example = pb_encode_submessage-Writes (Writes-pb_write (7 ∷ 8 ∷ []))

-- From the first field of the message the second one is found.
pb_field_iter_find-Search_example :
    Search (number ∷ pair ∷ []) 2 (pb_field_iter_find (iter_at_start (number ∷ pair ∷ []) 100) 2)
pb_field_iter_find-Search_example =
    pb_field_iter_find-Search (iter_at_start (number ∷ pair ∷ []) 100) 2
      ((λ e. omega (arith, e)), ((λ e. omega (arith, e)), tt)) (omega arith)

-- The message holds one that holds none.
abbrev pub depth : ℕ → ℕ
depth zero = 0
depth (suc zero) = 1
depth (suc (suc a)) = 0

pub table-IsTagged : (a : ℕ) → IsTagged (table a)
table-IsTagged zero = tt
table-IsTagged (suc zero) = ((λ e. omega (arith, e)), ((λ e. omega (arith, e)), tt))
table-IsTagged (suc (suc zero)) = ((λ e. omega (arith, e)), tt)
table-IsTagged (suc (suc (suc a))) = tt

pub table-IsBelow : (a : ℕ) → All (IsBelow depth (depth a)) (table a)
unfolding pb_ltype
table-IsBelow zero = tt
table-IsBelow (suc zero) = (
  record { plain = refl; inner = λ e. absurd (cc e) },
  (record { plain = refl; inner = λ e. omega arith }, tt),
)
table-IsBelow (suc (suc zero)) = (record { plain = refl; inner = λ e. absurd (cc e) }, tt)
table-IsBelow (suc (suc (suc a))) = tt

ranked : IsRanked program
ranked = record {
  rank = depth;
  has_tags = table-IsTagged;
  below = table-IsBelow;
  callbacks = λ function field arg. Ends-return;
}

pb_encode-ends_example :
    (pb_encode program memory 3 1 100 (pb_ostream_from_buffer 20)).0 ≢ out_of_fuel
unfolding ranked
pb_encode-ends_example =
    pb_encode-ends program memory ranked 3 1 100 (pb_ostream_from_buffer 20) (omega arith)
