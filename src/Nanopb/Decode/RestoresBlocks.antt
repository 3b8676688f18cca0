-- ===== src/Nanopb/Decode/RestoresBlocks.antt =====
-- ios/Pods/nanopb: the decoders of byte arrays and strings restore what the encoders of pb_encode.c
-- wrote, in fields of static allocation.
use spar_somnong.Common.{
  ℕ, ◌+◌, ◌-◌, ◌^◌, ◌<◌, ◌≤◌, ◌≡◌, false, ◌==◌, List, ◌++◌, length, ok, arith, sym, ltb,
}
use spar_somnong.Nanopb.Types.{PbField, pb_atype}
use spar_somnong.Nanopb.Atype
use spar_somnong.Nanopb.Memory.{Memory, load_size, load_bytes, bytes_array_bytes}
use spar_somnong.Nanopb.Wire.{delimited}
use spar_somnong.Nanopb.Ostream.{Encoder, pb_encode_string}
use spar_somnong.Nanopb.Ostream.Writes.{Writes}
use spar_somnong.Nanopb.Ostream.Values.{Writes-pb_encode_string}
use spar_somnong.Nanopb.Decode.ReadsBlocks.{buffered, fixed_length_lem, string_lem, bytes_lem}
use spar_somnong.Nanopb.Encode.Fields.{pb_enc_bytes, pb_enc_string, pb_enc_fixed_length_bytes}
use spar_somnong.Nanopb.Strings.{
  IsString, with_string, string_size-IsString, load_bytes-IsString, with_string-IsString,
}
use spar_somnong.Nanopb.Encode.Bounds.{length-load_bytes, load_size-lt}
use spar_somnong.Nanopb.Decode.Target.{FieldAction, store, store_bytes}
use spar_somnong.Nanopb.Decode.Allocate.{Realloc}
use spar_somnong.Nanopb.Decode.Blocks.{pb_dec_bytes, pb_dec_string, pb_dec_fixed_length_bytes}

-- The encoder writes `payload` with its length in front. In front of anything the decoder reads
-- exactly these bytes, and changes the memory by `change`.
pub record RestoresBlock (enc : Encoder) (dec : FieldAction (Unit {0})) (payload : List ℕ)
    (change : Memory → Memory) : Type 0 where
  pub writes : Writes enc (delimited payload)
  pub restores :
      (rest : List ℕ) (k : ℕ) (into : Memory)
      → length (delimited payload) ≤ k
      → dec (buffered (delimited payload ++ rest) k into)
        ≡ (ok tt, buffered rest (k - length (delimited payload)) (change into))

counted_string :
    (bs : List ℕ) {n : ℕ}
    → length bs ≡ n
    → length bs < 2 ^ 64
    → Writes (pb_encode_string bs n) (delimited bs)
counted_string bs e h = rw (← e) (Writes-pb_encode_string bs h)

module _ (mem : Memory) (field : PbField) (src dest : ℕ) where
  -- For a byte array of a fixed length from 1 to 2 ^ 32 - 1, `pb_enc_fixed_length_bytes` writes
  -- the bytes with their length in front, and `pb_dec_fixed_length_bytes` reads exactly these
  -- and stores the bytes.
  pub pb_dec_fixed_length_bytes-RestoresBlock :
      0 < field.data_size
      → field.data_size < 2 ^ 32
      → RestoresBlock
          (pb_enc_fixed_length_bytes mem field src)
          (pb_dec_fixed_length_bytes field dest)
          (load_bytes mem field.data_size src)
          (λ into. store_bytes into dest (load_bytes mem field.data_size src))
  unfolding pb_enc_fixed_length_bytes
  pb_dec_fixed_length_bytes-RestoresBlock pos small =
      let bs = load_bytes mem field.data_size src in
      let l : length bs ≡ field.data_size = length-load_bytes mem field.data_size src in
      record {
        writes = counted_string bs l (omega (arith, l));
        restores = λ rest k into h.
            fixed_length_lem bs rest k (omega (arith, l)) h field dest into (sym l)
              (omega (arith, l));
      }

  module _ (realloc : Realloc) (static : pb_atype field.type ≡ Atype.static)
      (some_src : 0 < src) where
    -- Where the string `chars` stands, characters that are not NUL with a NUL behind them, at
    -- an address that is not null and with its NUL inside a static field of less than 2 ^ 32
    -- bytes, `pb_enc_string` writes exactly `chars` with their length in front, `pb_dec_string`
    -- reads exactly these bytes and stores `chars` and a NUL, and then the string `chars`
    -- stands at the decoder's field.
    pub pb_dec_string-RestoresBlock :
        (chars : List ℕ)
        → IsString mem src chars
        → field.data_size < 2 ^ 32
        → length chars < field.data_size
        → RestoresBlock
            (pb_enc_string mem field src)
            (pb_dec_string realloc field dest)
            chars
            (λ into. with_string into dest chars)
          × ((into : Memory) → IsString (with_string into dest chars) dest chars)
    unfolding pb_enc_string
    pb_dec_string-RestoresBlock chars string small terminated =
        let not_null : (src == 0) ≡ false = ground arith in
        let size = string_size-IsString mem field.data_size src chars string terminated in
        let loaded = load_bytes-IsString mem src chars string in
        (
          record {
            writes =
                rw (static, not_null, size, loaded) (Writes-pb_encode_string chars (omega arith));
            restores = λ rest k into h.
                string_lem chars rest k (omega arith) h realloc field dest into static (omega arith)
                  terminated;
          },
          λ into. with_string-IsString mem src into dest chars string,
        )

    -- For a byte array in a static field that has room for it, at an address that is not null,
    -- `pb_enc_bytes` writes the bytes with their length in front, and `pb_dec_bytes` reads
    -- exactly these and stores the size and the bytes.
    pub pb_dec_bytes-RestoresBlock :
        load_size mem src + bytes_array_bytes ≤ field.data_size
        → RestoresBlock
            (pb_enc_bytes mem field src)
            (pb_dec_bytes realloc field dest)
            (load_bytes mem (load_size mem src) (src + bytes_array_bytes))
            (λ into.
              store_bytes
                (store into 4 dest (load_size mem src))
                (dest + bytes_array_bytes)
                (load_bytes mem (load_size mem src) (src + bytes_array_bytes)))
    unfolding pb_enc_bytes
    pb_dec_bytes-RestoresBlock room =
        let size = load_size mem src in
        let bs = load_bytes mem size (src + bytes_array_bytes) in
        let l : length bs ≡ size = length-load_bytes mem size (src + bytes_array_bytes) in
        let not_null : (src == 0) ≡ false = ground arith in
        let fits : ltb field.data_size (size + 4) ≡ false = ground arith in
        record {
          writes =
              rw (static, not_null, fits)
                (counted_string bs l (omega (arith, l, load_size-lt mem src)));
          restores = λ rest k into h. rw l (
              rw l at (
                bytes_lem bs rest k (omega (arith, l, load_size-lt mem src)) h realloc field dest
                  into static (omega (arith, l))));
        }
