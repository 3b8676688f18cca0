-- ===== src/Common/Calls.antt =====
-- The outcome of a call, and C functions on a stream as state passing.

-- `failed` is the C return value `false`. `fault` is a call through a null or unknown function
-- pointer, or a division by zero. `out_of_fuel` is no outcome of the program: a bounded recursion of the model ran out.
pub data Outcome {ℓ} (A : Type ℓ) : Type ℓ where
  ok : A → Outcome A
  failed fault out_of_fuel : Outcome A

-- A function that works on a stream of type `S`: the outcome and the stream afterwards.
abbrev pub Action {ℓ} : Type 0 → Type ℓ → Type ℓ
Action S A = S → Outcome A × S

abbrev pub resume {ℓ κ} :
    {S : Type 0} {A : Type ℓ} {B : Type κ} → Outcome A × S → (A → Action S B) → Outcome B × S
resume (ok a, s) k = k a s
resume (failed, s) k = (failed, s)
resume (fault, s) k = (fault, s)
resume (out_of_fuel, s) k = (out_of_fuel, s)

-- `if (!f(stream)) return false;`, and what follows it.
infixl 5 ◌>>=◌ ◌>>◌
abbrev pub ◌>>=◌ {ℓ κ} :
    {S : Type 0} {A : Type ℓ} {B : Type κ} → Action S A → (A → Action S B) → Action S B
◌>>=◌ m k s = resume (m s) k

abbrev pub ◌>>◌ {ℓ} : {S : Type 0} {B : Type ℓ} → Action S (Unit {0}) → Action S B → Action S B
◌>>◌ m k s = resume (m s) (λ _. k)

abbrev pub return {ℓ} : {S : Type 0} {A : Type ℓ} → A → Action S A
return a s = (ok a, s)

-- `return false` with no message.
abbrev pub fail {ℓ} : {S : Type 0} {A : Type ℓ} → Action S A
fail s = (failed, s)

abbrev pub exhausted {ℓ} : {S : Type 0} {A : Type ℓ} → Action S A
exhausted s = (out_of_fuel, s)
