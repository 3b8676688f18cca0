-- ===== src/Nanopb/Types.antt =====
-- ios/Pods/nanopb/pb.h: field descriptors, type codes, wire types and error messages, as the Pods
-- project builds them (PB_FIELD_32BIT, PB_ENABLE_MALLOC, error messages and 64-bit support on).
use spar_somnong.Common.{ℕ, ◌-◌, ◌+◌, ◌%◌, ◌^◌, bit_and, leb, if◌then◌else◌}

-- The strings that PB_RETURN_ERROR stores.
pub data ErrorMessage : Type 0 where
  stream_full io_error end_of_stream varint_overflow invalid_wire_type : ErrorMessage
  parent_stream_too_short invalid_field_type invalid_data_size integer_too_large : ErrorMessage
  array_max_size_exceeded missing_required_field callback_error submsg_size_changed : ErrorMessage
  bytes_size_exceeded invalid_field_descriptor bytes_overflow size_too_large : ErrorMessage
  string_overflow incorrect_fixed_length invalid_size realloc_failed : ErrorMessage
  array_overflow too_many_array_entries callback_failed invalid_union_tag : ErrorMessage
  iterator_error wrong_fixed_count : ErrorMessage

-- Casts to the widths of the program.
abbrev pub u8 : ℕ → ℕ
u8 n = n % 2 ^ 8

abbrev pub u32 : ℕ → ℕ
u32 n = n % 2 ^ 32

abbrev pub u64 : ℕ → ℕ
u64 n = n % 2 ^ 64

-- The cast of a signed integer of `bits` bits, given as its bit pattern, to 64 bits.
unfoldable pub sign_extend : ℕ → ℕ → ℕ
sign_extend bits v = if leb (2 ^ (bits - 1)) v then v + (2 ^ 64 - 2 ^ bits) else v

abbrev pub wt_varint : ℕ
wt_varint = 0

abbrev pub wt_64bit : ℕ
wt_64bit = 1

abbrev pub wt_string : ℕ
wt_string = 2

abbrev pub wt_32bit : ℕ
wt_32bit = 5

unfoldable pub pb_ltype : ℕ → ℕ
pb_ltype x = bit_and x 0x0F

unfoldable pub pb_htype : ℕ → ℕ
pb_htype x = bit_and x 0x30

unfoldable pub pb_atype : ℕ → ℕ
pb_atype x = bit_and x 0xC0

-- pb_size_t is uint32_t.
abbrev pub pb_size_max : ℕ
pb_size_max = 2 ^ 32 - 1

-- struct pb_field_s. `size_offset` is the bit pattern of an int32_t, `ptr` an address.
pub record PbField : Type 0 where
  pub tag : ℕ
  pub type : ℕ
  pub data_offset : ℕ
  pub size_offset : ℕ
  pub data_size : ℕ
  pub array_size : ℕ
  pub ptr : ℕ

-- PB_MAX_REQUIRED_FIELDS
abbrev pub pb_max_required_fields : ℕ
pb_max_required_fields = 64

-- PB_LAST_FIELD
abbrev pub pb_last_field : PbField
pb_last_field = record {
  tag = 0;
  type = 0;
  data_offset = 0;
  size_offset = 0;
  data_size = 0;
  array_size = 0;
  ptr = 0;
}
