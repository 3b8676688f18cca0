-- ===== src/Nanopb/Memory.antt =====
-- The memory that a message lies in, and the program's constant data, as ios/Pods/nanopb reads
-- them: bytes by address, little-endian, with pointers of eight bytes.
use spar_somnong.Common.{ℕ, zero, suc, ◌+◌, ◌*◌, ◌%◌, List, [], ◌∷◌, Bool, ◌==◌, not}
use spar_somnong.Nanopb.Types.{PbField}
use spar_somnong.Nanopb.Ostream.{Encoder}

abbrev pub Memory : Type 0
Memory = ℕ → ℕ

-- The number in the `n` bytes from `a` on.
unfoldable pub load : Memory → ℕ → ℕ → ℕ
load mem zero a = 0
load mem (suc n) a = mem a % 256 + 256 * load mem n (a + 1)

unfoldable pub load_pointer : Memory → ℕ → ℕ
load_pointer mem a = load mem 8 a

-- A pb_size_t.
unfoldable pub load_size : Memory → ℕ → ℕ
load_size mem a = load mem 4 a

unfoldable pub load_bool : Memory → ℕ → Bool
load_bool mem a = not (load mem 1 a == 0)

unfoldable pub load_bytes : Memory → ℕ → ℕ → List ℕ
load_bytes mem zero a = []
load_bytes mem (suc n) a = (mem a % 256) ∷ load_bytes mem n (a + 1)

-- Constant data and functions by their address: descriptor arrays without their terminator, and the
-- callbacks of the library's user, which are no part of the library.
pub record Program : Type 0 where
  pub fields_at : ℕ → List PbField
  pub encode_callback : ℕ → PbField → ℕ → Encoder
  pub encode_extension : ℕ → ℕ → Encoder

-- struct pb_callback_s, pb_extension_s, pb_extension_type_s and pb_bytes_array_s: the offsets of
-- their members.
abbrev pub callback_arg : ℕ
callback_arg = 8

abbrev pub extension_dest : ℕ
extension_dest = 8

abbrev pub extension_next : ℕ
extension_next = 16

abbrev pub extension_found : ℕ
extension_found = 24

abbrev pub extension_type_decode : ℕ
extension_type_decode = 0

abbrev pub extension_type_encode : ℕ
extension_type_encode = 8

abbrev pub extension_type_arg : ℕ
extension_type_arg = 16

abbrev pub bytes_array_bytes : ℕ
bytes_array_bytes = 4
