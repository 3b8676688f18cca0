-- ===== src/Examples/Fields.antt =====
-- Fields of each type on small values, encoded and decoded by ios/Pods/nanopb.
use spar_somnong.Common.{
  ℕ, ◌+◌, ◌-◌, ◌*◌, ◌^◌, ◌≤◌, ◌<◌, ◌≡◌, refl, ◌⊎◌, [], ◌∷◌, get_or, arith, none,
}
use spar_somnong.Nanopb.Types.{PbField, size_too_large, pb_atype}
use spar_somnong.Nanopb.Memory.{
  Memory, load, load_size, load_pointer, load_bytes, bytes_array_bytes,
}
use spar_somnong.Nanopb.Istream.Reads.{input}
use spar_somnong.Nanopb.Encode.Fields.{
  pb_enc_varint, pb_enc_uvarint, pb_enc_svarint, pb_enc_bytes, pb_enc_string,
  pb_enc_fixed_length_bytes,
}
use spar_somnong.Nanopb.Decode.Target.{Target, refuse, store, store_bytes}
use spar_somnong.Nanopb.Decode.Allocate.{Realloc, reallocated, allocate_field}
use spar_somnong.Nanopb.Decode.AllocateBounds.{Takes, allocate_field-exact}
use spar_somnong.Nanopb.Strings.{IsString, with_string}
use spar_somnong.Nanopb.Decode.Numbers.{pb_dec_varint, pb_dec_uvarint, pb_dec_svarint}
use spar_somnong.Nanopb.Decode.Blocks.{pb_dec_bytes, pb_dec_string, pb_dec_fixed_length_bytes}
use spar_somnong.Nanopb.Decode.Restores.{
  Restores, pb_dec_varint-Restores, pb_dec_uvarint-Restores, pb_dec_svarint-Restores,
}
use spar_somnong.Nanopb.Decode.RestoresBlocks.{
  RestoresBlock, pb_dec_bytes-RestoresBlock, pb_dec_string-RestoresBlock,
  pb_dec_fixed_length_bytes-RestoresBlock,
}

abbrev of_type : ℕ → ℕ → PbField
of_type type data_size = record {
  tag = 1;
  type = type;
  data_offset = 0;
  size_offset = 0;
  data_size = data_size;
  array_size = 0;
  ptr = 0;
}

-- At 100 stand the bytes of the int32_t -2, at 200 a byte array of two bytes, at 300 a string.
abbrev memory : Memory
memory a =
    get_or (0xFE ∷ 0xFF ∷ 0xFF ∷ 0xFF ∷ []) (a - 100) 0
    + (get_or (0 ∷ 2 ∷ 0 ∷ 0 ∷ 0 ∷ 104 ∷ 105 ∷ []) (a - 199) 0
        + get_or (0 ∷ 104 ∷ 105 ∷ []) (a - 299) 0)

-- An allocator that is out of memory.
abbrev no_memory : Realloc
no_memory mem ptr size = none

pb_dec_varint-Restores_example :
    Restores
      (pb_enc_varint memory (of_type 0 4) 100)
      (pb_dec_varint (of_type 0 4) 500)
      4
      500
      (load memory 4 100)
pb_dec_varint-Restores_example = pb_dec_varint-Restores memory (of_type 0 4) 100 500 refl

pb_dec_uvarint-Restores_example :
    Restores
      (pb_enc_uvarint memory (of_type 1 4) 100)
      (pb_dec_uvarint (of_type 1 4) 500)
      4
      500
      (load memory 4 100)
pb_dec_uvarint-Restores_example = pb_dec_uvarint-Restores memory (of_type 1 4) 100 500 refl

pb_dec_svarint-Restores_example :
    Restores
      (pb_enc_svarint memory (of_type 2 4) 100)
      (pb_dec_svarint (of_type 2 4) 500)
      4
      500
      (load memory 4 100)
pb_dec_svarint-Restores_example = pb_dec_svarint-Restores memory (of_type 2 4) 100 500 refl

pb_dec_bytes-RestoresBlock_example :
    RestoresBlock
      (pb_enc_bytes memory (of_type 5 8) 200)
      (pb_dec_bytes no_memory (of_type 5 8) 500)
      (load_bytes memory (load_size memory 200) (200 + bytes_array_bytes))
      (λ into.
        store_bytes
          (store into 4 500 (load_size memory 200))
          (500 + bytes_array_bytes)
          (load_bytes memory (load_size memory 200) (200 + bytes_array_bytes)))
unfolding pb_atype load_size load
pb_dec_bytes-RestoresBlock_example =
    pb_dec_bytes-RestoresBlock memory (of_type 5 8) 200 500 no_memory refl (omega arith)
      (omega arith)

pb_dec_string-RestoresBlock_example :
    RestoresBlock
      (pb_enc_string memory (of_type 6 8) 300)
      (pb_dec_string no_memory (of_type 6 8) 500)
      (104 ∷ 105 ∷ [])
      (λ into. with_string into 500 (104 ∷ 105 ∷ []))
    × ((into : Memory) → IsString (with_string into 500 (104 ∷ 105 ∷ [])) 500 (104 ∷ 105 ∷ []))
unfolding pb_atype load
pb_dec_string-RestoresBlock_example =
    pb_dec_string-RestoresBlock memory (of_type 6 8) 300 500 no_memory refl (omega arith)
      (104 ∷ 105 ∷ []) (refl, (λ e. omega (arith, e)), (refl, (λ e. omega (arith, e)), refl))
      (omega arith) (omega arith)

pb_dec_fixed_length_bytes-RestoresBlock_example :
    RestoresBlock
      (pb_enc_fixed_length_bytes memory (of_type 9 4) 100)
      (pb_dec_fixed_length_bytes (of_type 9 4) 500)
      (load_bytes memory 4 100)
      (λ into. store_bytes into 500 (load_bytes memory 4 100))
pb_dec_fixed_length_bytes-RestoresBlock_example =
    pb_dec_fixed_length_bytes-RestoresBlock memory (of_type 9 4) 100 500 (omega arith) (omega arith)

abbrev target : Target
target = record { stream = input [] 0; memory = memory }

allocate_field-exact_example :
    ((3 * 2 ^ 40 < 2 ^ 64)
      × (allocate_field no_memory 100 (2 ^ 40) 3 target
          ≡ reallocated 100 (no_memory memory (load_pointer memory 100) (3 * 2 ^ 40)) target)
      × Takes 100 target
          (no_memory memory (load_pointer memory 100) (3 * 2 ^ 40))
          (allocate_field no_memory 100 (2 ^ 40) 3 target))
    ⊎ ((2 ^ 64 ≤ 3 * 2 ^ 40)
        × (allocate_field no_memory 100 (2 ^ 40) 3 target ≡ refuse size_too_large target))
allocate_field-exact_example =
    allocate_field-exact no_memory 100 (2 ^ 40) 3 target (omega arith) (omega arith)
