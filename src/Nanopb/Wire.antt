-- ===== src/Nanopb/Wire.antt =====
-- The bytes of the protobuf wire format, written down apart from the code that reads and writes
-- them: base-128 groups, lowest first, with 128 added to all but the last; little-endian words.
use spar_somnong.Common.{
  ℕ, zero, suc, ◌+◌, ◌*◌, ◌/◌, ◌%◌, ◌^◌, ◌≤◌, ◌<◌, ◌≡◌, refl, List, [], ◌∷◌, ◌++◌, length, All, ltb,
  if◌then◌else◌, arith,
}

-- The varint of `v` in at most `k + 1` bytes, for `v` below 128 ^ (k + 1).
unfoldable pub varint_bytes : ℕ → ℕ → List ℕ
varint_bytes zero v = v ∷ []
varint_bytes (suc k) v =
    let rest = varint_bytes k (v / 128) in if ltb v 128 then v ∷ [] else (v % 128 + 128) ∷ rest

-- A uint64 takes ten bytes at most.
abbrev pub varint64 : ℕ → List ℕ
varint64 v = varint_bytes 9 v

-- `v` in `n` bytes, lowest first.
abbrev pub little_endian : ℕ → ℕ → List ℕ
little_endian zero v = []
little_endian (suc n) v = (v % 256) ∷ little_endian n (v / 256)

abbrev pub tag_bytes : ℕ → ℕ → List ℕ
tag_bytes wiretype tag = varint64 (tag * 8 + wiretype)

abbrev pub delimited : List ℕ → List ℕ
delimited payload = varint64 (length payload) ++ payload

pub length-varint_bytes :
    (k v : ℕ) → (1 ≤ length (varint_bytes k v)) × (length (varint_bytes k v) ≤ k + 1)
unfolding varint_bytes
length-varint_bytes zero v = omega arith
length-varint_bytes (suc k) v = ground (arith, length-varint_bytes k (v / 128))

pub varint_bytes-All : (k v : ℕ) → v < 128 ^ suc k → All (λ b. b < 256) (varint_bytes k v)
unfolding varint_bytes
varint_bytes-All zero v h = omega arith
varint_bytes-All (suc k) v h = ground (arith, varint_bytes-All k (v / 128) (omega arith))

pub length-little_endian : (n v : ℕ) → length (little_endian n v) ≡ n
length-little_endian zero v = refl
length-little_endian (suc n) v = omega (arith, length-little_endian n (v / 256))

varint_bytes-suc : (k v : ℕ) → v < 128 ^ suc k → varint_bytes (suc k) v ≡ varint_bytes k v
unfolding varint_bytes
varint_bytes-suc zero v h = ground arith
varint_bytes-suc (suc k) v h = ground (arith, varint_bytes-suc k (v / 128))

-- A uint32 takes five bytes at most.
pub varint64-uint32 : (v : ℕ) → v < 2 ^ 32 → varint64 v ≡ varint_bytes 4 v
varint64-uint32 v h = rw (
  varint_bytes-suc 8 v (omega arith),
  varint_bytes-suc 7 v (omega arith),
  varint_bytes-suc 6 v (omega arith),
  varint_bytes-suc 5 v (omega arith),
  varint_bytes-suc 4 v (omega arith),
)
