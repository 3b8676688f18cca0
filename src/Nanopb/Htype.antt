-- ===== src/Nanopb/Htype.antt =====
-- ios/Pods/nanopb/pb.h: PB_HTYPE_*, the repetition rule of a field.
use spar_somnong.Common.{ℕ}

abbrev pub required : ℕ
required = 0x00

abbrev pub optional : ℕ
optional = 0x10

abbrev pub repeated : ℕ
repeated = 0x20

abbrev pub oneof : ℕ
oneof = 0x30
