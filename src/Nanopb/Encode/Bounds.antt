-- ===== src/Nanopb/Encode/Bounds.antt =====
-- Bounds on what pb_encode.c loads from memory, and on descriptors.
use spar_somnong.Common.{
  ℕ, zero, suc, ◌+◌, ◌^◌, ◌≤◌, ◌<◌, ◌≡◌, refl, ap, List, [], ◌∷◌, length, All, arith, true,
}
use native.Mathlib.Nat.{pow-suc, pow-le-pow_right}
use spar_somnong.Nanopb.Types.{PbField}
use spar_somnong.Nanopb.Memory.{Memory, load, load_size, load_bytes}
use spar_somnong.Nanopb.Iter.{field_at}
use spar_somnong.Nanopb.Encode.Fields.{string_size, is_integer_size}

pub load-lt : (mem : Memory) (n a : ℕ) → load mem n a < 256 ^ n
unfolding load
load-lt mem zero a = omega arith
load-lt mem (suc n) a = omega (arith, load-lt mem n (a + 1), pow-suc 256 n)

pub load_size-lt : (mem : Memory) (a : ℕ) → load_size mem a < 2 ^ 32
unfolding load_size
load_size-lt mem a = omega (arith, load-lt mem 4 a)

pub load_integer-lt : (mem : Memory) (n a : ℕ) → is_integer_size n ≡ true → load mem n a < 2 ^ 64
load_integer-lt mem n a h =
    let small : n ≤ 8 = ground arith in
    let bound = pow-le-pow_right {n = 256} (omega arith) small in
    omega (arith, load-lt mem n a, bound)

pub length-load_bytes : (mem : Memory) (n a : ℕ) → length (load_bytes mem n a) ≡ n
unfolding load_bytes
length-load_bytes mem zero a = refl
length-load_bytes mem (suc n) a = ap suc (length-load_bytes mem n (a + 1))

pub string_size-le : (mem : Memory) (n p : ℕ) → string_size mem n p ≤ n
unfolding string_size
string_size-le mem zero p = omega arith
string_size-le mem (suc n) p = ground (arith, string_size-le mem n (p + 1))

-- The members of a descriptor fit the types of the struct.
pub record IsField (f : PbField) : Type 0 where
  pub tag : f.tag < 2 ^ 32
  pub data_size : f.data_size < 2 ^ 32
  pub array_size : f.array_size < 2 ^ 32

pub field_at-IsField :
    (fields : List PbField) (i : ℕ) → All IsField fields → IsField (field_at fields i)
field_at-IsField [] i h = omega arith
field_at-IsField (f ∷ fs) zero h = h.0
field_at-IsField (f ∷ fs) (suc i) h = field_at-IsField fs i h.1
