-- ===== src/Nanopb/Ostream/Values.antt =====
-- What the encoders of single values write.
use spar_somnong.Common.{
  ℕ, zero, suc, ◌+◌, ◌*◌, ◌/◌, ◌%◌, ◌^◌, ◌<◌, bit_and, bit_or, ◌≡◌, refl, ap, List, [], ◌∷◌, length,
  some, ltb, leb, Bool-cases, inl, inr, arith, bit_and_ones, bit_or_low, bit_or_high,
}
use spar_somnong.Nanopb.Types.{u8, u64}
use spar_somnong.Nanopb.Ostream.{
  pb_write, varint_groups, clear_last, pb_encode_varint, pb_encode_svarint, pb_encode_fixed32,
  pb_encode_fixed64, pb_encode_tag, pb_encode_string, write_groups, zigzag,
}
use spar_somnong.Nanopb.Ostream.Writes.{Writes, Writes-pb_write, Writes-seq}
use spar_somnong.Nanopb.Wire.{varint_bytes, varint64, little_endian, tag_bytes, delimited}

group_byte : (v : ℕ) → bit_or (bit_and v 0x7F) 0x80 ≡ v % 128 + 128
group_byte v = omega (arith, bit_and_ones 7 v, bit_or_low 7 1 (bit_and v 0x7F))

last_byte : (v : ℕ) → v < 128 → bit_and (v % 128 + 128) 0x7F ≡ v
last_byte v h = omega (arith, bit_and_ones 7 (v % 128 + 128))

-- The bytes that the loop leaves in the buffer, once the last top bit is cleared.
record Grouped (left k v : ℕ) : Type 0 where
  first : ℕ
  others : List ℕ
  result : varint_groups left v ≡ some (first ∷ others)
  cleared : clear_last (first ∷ others) ≡ varint_bytes k v

groups_of : (k v : ℕ) → 0 < v → v < 128 ^ suc k → Grouped (suc k) k v
unfolding varint_groups clear_last varint_bytes
groups_of zero v pos h = record {
  first = v % 128 + 128;
  others = [];
  result = ground (arith, group_byte v);
  cleared = rw (last_byte v (omega arith));
}
groups_of (suc k) v pos h = elim (Bool-cases (ltb v 128)) [
  | inl small ↦ record {
    first = v % 128 + 128;
    others = [];
    result = ground (arith, group_byte v);
    cleared = rw small (rw (last_byte v (ground arith)));
  }
  | inr large ↦
      let rest = groups_of k (v / 128) (ground arith) (ground arith) in
      record {
        first = v % 128 + 128;
        others = rest.first ∷ rest.others;
        result = ground (arith, group_byte v, rest.result);
        cleared = rw large (rw rest.cleared);
      }
]

varint_bytes-small : (k v : ℕ) → v < 128 → varint_bytes k v ≡ v ∷ []
unfolding varint_bytes
varint_bytes-small zero v h = refl
varint_bytes-small (suc k) v h = ground arith

clear_last-length : (bs : List ℕ) → length (clear_last bs) ≡ length bs
unfolding clear_last
clear_last-length [] = refl
clear_last-length (b ∷ []) = refl
clear_last-length (b ∷ c ∷ bs) = ap suc (clear_last-length (c ∷ bs))

Writes-counted :
    (bs : List ℕ) {cs : List ℕ} {n : ℕ} → bs ≡ cs → length bs ≡ n → Writes (pb_write bs n) cs
Writes-counted bs e l = rw (← l, ← e) (Writes-pb_write bs)

Writes-groups : (gs bs : List ℕ) → clear_last gs ≡ bs → Writes (write_groups (some gs)) bs
Writes-groups gs bs e = Writes-counted (clear_last gs) e (clear_last-length gs)

-- `pb_encode_varint` writes the varint of every uint64, and never runs past its ten-byte buffer.
pub Writes-pb_encode_varint : (v : ℕ) → v < 2 ^ 64 → Writes (pb_encode_varint v) (varint64 v)
unfolding pb_encode_varint
Writes-pb_encode_varint v h = elim (Bool-cases (leb v 0x7F)) [
  | inl small ↦
      let e : u8 v ≡ v = ground arith in
      rw (small, e, varint_bytes-small 9 v (ground arith)) (Writes-pb_write (v ∷ []))
  | inr large ↦
      let gs = groups_of 9 v (ground arith) (omega arith) in
      rw (large, gs.result) (Writes-groups (gs.first ∷ gs.others) (varint64 v) gs.cleared)
]

u8_mask : (v : ℕ) → u8 (bit_and v 0xFF) ≡ v % 256
u8_mask v = omega (arith, bit_and_ones 8 v)

-- `pb_encode_fixed32` writes the four bytes of a uint32, lowest first.
pub Writes-pb_encode_fixed32 : (v : ℕ) → Writes (pb_encode_fixed32 v) (little_endian 4 v)
unfolding pb_encode_fixed32
Writes-pb_encode_fixed32 v = simp u8_mask (Writes-counted _ (ground arith) refl)

pub Writes-pb_encode_fixed64 : (v : ℕ) → Writes (pb_encode_fixed64 v) (little_endian 8 v)
unfolding pb_encode_fixed64
Writes-pb_encode_fixed64 v = simp u8_mask (Writes-counted _ (ground arith) refl)

-- For wire types below 8 and uint32 field numbers, `pb_encode_tag` writes the varint of the
-- field number times 8 plus the wire type.
pub Writes-pb_encode_tag :
    (wiretype tag : ℕ)
    → wiretype < 8
    → tag < 2 ^ 32
    → Writes (pb_encode_tag wiretype tag) (tag_bytes wiretype tag)
unfolding pb_encode_tag
Writes-pb_encode_tag wiretype tag hw ht =
    let e : bit_or (u64 (tag * 2 ^ 3)) wiretype ≡ tag * 8 + wiretype =
      ground (arith, bit_or_high 3 tag wiretype) in
    rw e (Writes-pb_encode_varint _ (omega arith))

-- `pb_encode_string` writes the length as a varint and the bytes, for fewer than 2 ^ 64 bytes.
pub Writes-pb_encode_string :
    (bs : List ℕ) → length bs < 2 ^ 64 → Writes (pb_encode_string bs (length bs)) (delimited bs)
unfolding pb_encode_string
Writes-pb_encode_string bs h =
    Writes-seq (Writes-pb_encode_varint (length bs) h) (Writes-pb_write bs)

pub zigzag-lt : (v : ℕ) → v < 2 ^ 64 → zigzag v < 2 ^ 64
unfolding zigzag
zigzag-lt v h = ground arith

pub Writes-pb_encode_svarint :
    (v : ℕ) → v < 2 ^ 64 → Writes (pb_encode_svarint v) (varint64 (zigzag v))
unfolding pb_encode_svarint
Writes-pb_encode_svarint v h = Writes-pb_encode_varint (zigzag v) (zigzag-lt v h)
