-- ===== src/Nanopb/Atype.antt =====
-- ios/Pods/nanopb/pb.h: PB_ATYPE_*, the allocation of a field.
use spar_somnong.Common.{ℕ}

abbrev pub static : ℕ
static = 0x00

abbrev pub pointer : ℕ
pointer = 0x80

abbrev pub callback : ℕ
callback = 0x40
