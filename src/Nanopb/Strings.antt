-- ===== src/Nanopb/Strings.antt =====
-- The strings of C in the memory of a message: characters that are not NUL, and a NUL behind them.
use spar_somnong.Common.{
  ℕ, zero, suc, ◌+◌, ◌%◌, ◌≡◌, ◌≢◌, ◌<◌, refl, List, [], ◌∷◌, length, ==_refl, ne→==, false, ◌==◌,
  arith, ◌∙◌,
}
use mathlib.Core.Path.{subst}
use spar_somnong.Nanopb.Memory.{Memory, load, load_bytes}
use spar_somnong.Nanopb.Encode.Fields.{string_size}
use spar_somnong.Nanopb.Decode.Target.{store, store_byte, store_bytes}
use spar_somnong.Nanopb.Decode.Stored.{store-below, load-store}
use spar_somnong.Nanopb.Decode.ReadsBlocks.{store_bytes-below}

-- The string that stands at an address.
abbrev pub IsString : Memory → ℕ → List ℕ → Type 0
IsString mem p [] = load mem 1 p ≡ 0
IsString mem p (c ∷ cs) = (load mem 1 p ≡ c) × (c ≢ 0) × IsString mem (p + 1) cs

-- The memory with characters and a NUL written to an address.
abbrev pub with_string : Memory → ℕ → List ℕ → Memory
with_string mem p cs = store (store_bytes mem p cs) 1 (p + length cs) 0

-- In an area that the string and its NUL fit in, the code finds the NUL.
pub string_size-IsString :
    (mem : Memory) (n p : ℕ) (cs : List ℕ)
    → IsString mem p cs
    → length cs < n
    → string_size mem n p ≡ length cs
unfolding string_size
string_size-IsString mem zero p cs h lt = absurd (omega arith)
string_size-IsString mem (suc n) p [] h lt = rw h refl
string_size-IsString mem (suc n) p (c ∷ cs) h lt =
    let some_char : (load mem 1 p == 0) ≡ false = rw (h.0) (ne→== c 0 h.1) in
    rw (some_char, string_size-IsString mem n (p + 1) cs h.2 (omega arith)) refl

pub load_bytes-IsString :
    (mem : Memory) (p : ℕ) (cs : List ℕ) → IsString mem p cs → load_bytes mem (length cs) p ≡ cs
unfolding load_bytes
load_bytes-IsString mem p [] h = refl
load_bytes-IsString mem p (c ∷ cs) h =
    let here : mem p % 256 ≡ c = unfold load in omega (arith, h.0) in
    rw (here, load_bytes-IsString mem (p + 1) cs h.2) refl

head-with_string :
    (mem : Memory) (p c : ℕ) (cs : List ℕ)
    → c < 256
    → load (with_string (store_byte mem p c) (p + 1) cs) 1 p ≡ c
unfolding load
head-with_string mem p c cs h =
    let below = store_bytes-below (store_byte mem p c) (p + 1) p cs (omega arith) in
    let last =
      store-below (store_bytes (store_byte mem p c) (p + 1) cs) 1 (p + 1 + length cs) 0 p
        (omega arith) in
    rw (last, below, ==_refl p) (omega arith)

-- A string that was written stands there.
pub with_string-IsString :
    (from : Memory) (a : ℕ) (mem : Memory) (p : ℕ) (cs : List ℕ)
    → IsString from a cs
    → IsString (with_string mem p cs) p cs
with_string-IsString from a mem p [] h =
    let e : p + 0 ≡ p = omega arith in
    unfold store_bytes in rw e (load-store mem 1 p 0 ∙ omega arith)
with_string-IsString from a mem p (c ∷ cs) h =
    let small : c < 256 = unfold load in omega (arith, h.0) in
    let e : p + suc (length cs) ≡ p + 1 + length cs = omega arith in
    let same : with_string (store_byte mem p c) (p + 1) cs ≡ with_string mem p (c ∷ cs) =
      unfold store_bytes in rw e refl in
    let rest = with_string-IsString from (a + 1) (store_byte mem p c) (p + 1) cs h.2 in
    subst (λ m. IsString m p (c ∷ cs)) same (head-with_string mem p c cs small, h.1, rest)
