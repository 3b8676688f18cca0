-- ===== src/Nanopb/Decode/Target.antt =====
-- What the field decoders of ios/Pods/nanopb/pb_decode.c work on: a stream and the memory.
use spar_somnong.Common.{
  ℕ, zero, suc, ◌+◌, ◌/◌, ◌%◌, List, [], ◌∷◌, ◌==◌, if◌then◌else◌, Outcome, ok, Action,
}
use spar_somnong.Nanopb.Types.{ErrorMessage}
use spar_somnong.Nanopb.Memory.{Memory}
use spar_somnong.Nanopb.Istream.{Istream, Decoder, raise}

pub record Target : Type 0 where
  pub stream : Istream
  pub memory : Memory

abbrev pub FieldAction {ℓ} : Type ℓ → Type ℓ
FieldAction A = Action Target A

abbrev pub with_memory {ℓ} : {A : Type ℓ} → Memory → Outcome A × Istream → Outcome A × Target
with_memory mem (o, s) = (o, record { stream = s; memory = mem })

-- A call that leaves the memory alone.
abbrev pub on_stream {ℓ} : {A : Type ℓ} → Decoder A → FieldAction A
on_stream d t = with_memory t.memory (d t.stream)

abbrev pub refuse {ℓ} : {A : Type ℓ} → ErrorMessage → FieldAction A
refuse e t = with_memory t.memory (raise e t.stream)

abbrev pub store_byte : Memory → ℕ → ℕ → Memory
store_byte mem a v x = if x == a then v % 256 else mem x

-- The low bytes of `v` to the `n` bytes from `a` on.
unfoldable pub store : Memory → ℕ → ℕ → ℕ → Memory
store mem zero a v = mem
store mem (suc n) a v = store (store_byte mem a v) n (a + 1) (v / 256)

unfoldable pub store_bytes : Memory → ℕ → List ℕ → Memory
store_bytes mem a [] = mem
store_bytes mem a (b ∷ bs) = store_bytes (store_byte mem a b) (a + 1) bs

abbrev pub assign : ℕ → ℕ → ℕ → FieldAction (Unit {0})
assign n a v t = (ok tt, record t { memory = store t.memory n a v })

abbrev pub assign_bytes : ℕ → List ℕ → FieldAction (Unit {0})
assign_bytes a bs t = (ok tt, record t { memory = store_bytes t.memory a bs })
