-- ===== src/Nanopb/Decode/Host.antt =====
-- What ios/Pods/nanopb/pb_decode.c calls and does not define: the program's descriptors and
-- callbacks, the allocator, and the place of a local variable.
use spar_somnong.Common.{ℕ}
use spar_somnong.Nanopb.Types.{PbField}
use spar_somnong.Nanopb.Memory.{Program}
use spar_somnong.Nanopb.Decode.Target.{FieldAction}
use spar_somnong.Nanopb.Decode.Allocate.{Realloc}
use spar_somnong.Nanopb.Decode.Release.{Free}

pub record Host : Type 0 where
  pub program : Program
  pub realloc : Realloc
  pub free : Free
  -- The user's callbacks by their address: on the field and the address of `arg`.
  pub decode_callback : ℕ → PbField → ℕ → FieldAction (Unit {0})
  -- The user's extension handlers by their address: on the extension, the tag and the wire type.
  pub decode_extension : ℕ → ℕ → ℕ → ℕ → FieldAction (Unit {0})
  -- The calls of a callback for one field that read nothing and after which it goes on.
  pub idle_calls : ℕ
  -- The address of `fixed_count_size` in the call of `pb_decode_noinit` with this much fuel.
  pub fixed_count_size_at : ℕ → ℕ
