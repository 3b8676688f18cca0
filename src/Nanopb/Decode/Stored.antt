-- ===== src/Nanopb/Decode/Stored.antt =====
-- What `store` leaves in the memory.
use spar_somnong.Common.{
  ℕ, zero, suc, ◌+◌, ◌*◌, ◌/◌, ◌%◌, ◌^◌, ◌<◌, ◌≡◌, refl, ◌==◌, ==_refl, arith, false, ap, sym, ◌∙◌,
}
use native.Mathlib.Nat.{
  pow-suc, one-le-pow, mod-lt, mod-eq_of_lt, div-add-mod, add-mul-mod_self_left,
}
use spar_somnong.Nanopb.Memory.{Memory, load}
use spar_somnong.Nanopb.Decode.Target.{store, store_byte}

pub store-below : (mem : Memory) (n a v x : ℕ) → x < a → store mem n a v x ≡ mem x
unfolding store
store-below mem zero a v x h = refl
store-below mem (suc n) a v x h =
    let other : (x == a) ≡ false = ground arith in
    rw (store-below (store_byte mem a v) n (a + 1) (v / 256) x (omega arith), other) refl

pub store-above : (mem : Memory) (n a v x : ℕ) → a + n < x + 1 → store mem n a v x ≡ mem x
unfolding store
store-above mem zero a v x h = refl
store-above mem (suc n) a v x h =
    let other : (x == a) ≡ false = ground arith in
    rw (store-above (store_byte mem a v) n (a + 1) (v / 256) x (omega arith), other) refl

split_mod : (v p : ℕ) → 0 < p → v % 256 + 256 * (v / 256 % p) ≡ v % (256 * p)
split_mod v p pos =
    let r = v % 256 + 256 * (v / 256 % p) in
    let whole : v ≡ r + 256 * p * (v / 256 / p) = omega (arith, div-add-mod (v / 256) p) in
    let small : r < 256 * p = omega (arith, mod-lt (v / 256) pos) in
    sym (
      ap (λ (t : ℕ). t % (256 * p)) whole
      ∙ add-mul-mod_self_left r (256 * p) (v / 256 / p)
      ∙ mod-eq_of_lt small)

-- The number read back is the one stored, in as many bytes.
pub load-store : (mem : Memory) (n a v : ℕ) → load (store mem n a v) n a ≡ v % 256 ^ n
unfolding load store
load-store mem zero a v = omega arith
load-store mem (suc n) a v =
    let here : store (store_byte mem a v) n (a + 1) (v / 256) a ≡ v % 256 =
      rw (store-below (store_byte mem a v) n (a + 1) (v / 256) a (omega arith), ==_refl a) refl in
    let power : 256 ^ suc n ≡ 256 * 256 ^ n = omega (arith, pow-suc 256 n) in
    let byte : v % 256 % 256 ≡ v % 256 = omega arith in
    rw (here, load-store (store_byte mem a v) n (a + 1) (v / 256), power, byte)
      (split_mod v (256 ^ n) (one-le-pow n 256 (omega arith)))
