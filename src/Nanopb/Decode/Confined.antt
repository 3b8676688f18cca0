-- ===== src/Nanopb/Decode/Confined.antt =====
-- ios/Pods/nanopb/pb_decode.c: the decoders of numbers store inside of the field's data.
use spar_somnong.Common.{
  ℕ, ◌+◌, ◌≤◌, ◌<◌, ◌≡◌, refl, ◌∙◌, ◌⊎◌, inl, inr, Bool, true, false, ◌==◌, leb, if◌then◌else◌,
  Outcome, ok, failed, fault, out_of_fuel, resume, ◌>>=◌, arith,
}
use spar_somnong.Nanopb.Types.{ErrorMessage, PbField, pb_ltype, invalid_data_size}
use spar_somnong.Nanopb.Ltype
use spar_somnong.Nanopb.Memory.{Memory}
use spar_somnong.Nanopb.Istream.{Decoder, raise}
use spar_somnong.Nanopb.Istream.Varints.{pb_decode_varint}
use spar_somnong.Nanopb.Istream.Values.{pb_decode_svarint, pb_decode_fixed32, pb_decode_fixed64}
use spar_somnong.Nanopb.Encode.Fields.{is_integer_size}
use spar_somnong.Nanopb.Decode.Target.{Target, FieldAction, on_stream, refuse, assign, store}
use spar_somnong.Nanopb.Decode.Allocate.{Realloc}
use spar_somnong.Nanopb.Decode.Stored.{store-below, store-above}
use spar_somnong.Nanopb.Decode.Numbers.{
  FieldDecoder, stored_whole, put_signed, put_unsigned, dec_varint_value, pb_dec_varint,
  pb_dec_uvarint, pb_dec_svarint, pb_dec_fixed32, pb_dec_fixed64,
}
use spar_somnong.Nanopb.Decode.Field.{pb_decoders}

-- The address is none of the `n` from `a` on.
abbrev pub IsOutside : ℕ → ℕ → ℕ → Type 0
IsOutside x a n = (x < a) ⊎ (a + n ≤ x)

pub IsOutside-within : (x a n b m : ℕ) → IsOutside x a n → a ≤ b → b + m ≤ a + n → IsOutside x b m
IsOutside-within x a n b m (inl lt) le fits = inl (omega arith)
IsOutside-within x a n b m (inr ge) le fits = inr (omega arith)

pub store-outside : (mem : Memory) (n a v x : ℕ) → IsOutside x a n → store mem n a v x ≡ mem x
store-outside mem n a v x (inl lt) = store-below mem n a v x lt
store-outside mem n a v x (inr ge) = store-above mem n a v x (omega arith)

-- The byte at `x` is as before, whatever the outcome.
abbrev pub Keeps : {A : Type 0} → ℕ → Target → Outcome A × Target → Type 0
Keeps x t r = r.1.memory x ≡ t.memory x

resume-Keeps :
    {A B : Type 0} (x : ℕ) (t : Target) (r : Outcome A × Target) (f : A → FieldAction B)
    → Keeps x t r
    → ((a : A) (u : Target) → Keeps x u (f a u))
    → Keeps x t (resume r f)
resume-Keeps x t (ok a, u) f h k = k a u ∙ h
resume-Keeps x t (failed, u) f h k = h
resume-Keeps x t (fault, u) f h k = h
resume-Keeps x t (out_of_fuel, u) f h k = h

pub Keeps-bind :
    {A B : Type 0} (x : ℕ) (m : FieldAction A) (f : A → FieldAction B) (t : Target)
    → Keeps x t (m t)
    → ((a : A) (u : Target) → Keeps x u (f a u))
    → Keeps x t ((m >>= f) t)
Keeps-bind x m f t h k = resume-Keeps x t (m t) f h k

pub Keeps-refuse : (x : ℕ) (e : ErrorMessage) (t : Target) → Keeps {A = Unit {0}} x t (refuse e t)
unfolding raise
Keeps-refuse x e t = refl

pub Keeps-if :
    {A : Type 0} (x : ℕ) (b : Bool) (m n : FieldAction A) (t : Target)
    → Keeps x t (m t)
    → Keeps x t (n t)
    → Keeps x t ((if b then m else n) t)
Keeps-if x true m n t p q = p
Keeps-if x false m n t p q = q

pub Keeps-either :
    {A : Type 0} (x : ℕ) (b : Bool) (r s : Outcome A × Target) (t : Target)
    → Keeps x t r
    → Keeps x t s
    → Keeps x t (if b then r else s)
Keeps-either x true r s t p q = p
Keeps-either x false r s t p q = q

stored_whole-Keeps :
    (x : ℕ) (b : Bool) (size dest value : ℕ) (t : Target)
    → IsOutside x dest size
    → Keeps x t (stored_whole b size dest value t)
unfolding raise
stored_whole-Keeps x true size dest value t out = store-outside t.memory size dest value x out
stored_whole-Keeps x false size dest value t out = store-outside t.memory size dest value x out

put_signed-Keeps :
    (x size dest v : ℕ) (t : Target) → IsOutside x dest size → Keeps x t (put_signed size dest v t)
unfolding put_signed
put_signed-Keeps x size dest v t out =
    Keeps-if x (is_integer_size size) (stored_whole _ size dest v) (refuse invalid_data_size) t
      (stored_whole-Keeps x _ size dest v t out) (Keeps-refuse x invalid_data_size t)

put_unsigned-Keeps :
    (x size dest v : ℕ) (t : Target)
    → IsOutside x dest size
    → Keeps x t (put_unsigned size dest v t)
unfolding put_unsigned
put_unsigned-Keeps x size dest v t out =
    Keeps-if x (is_integer_size size) (stored_whole _ size dest v) (refuse invalid_data_size) t
      (stored_whole-Keeps x _ size dest v t out) (Keeps-refuse x invalid_data_size t)

-- On this field the decoder stores inside of the field's data.
abbrev pub StaysInside : FieldDecoder → PbField → Type 0
StaysInside func field =
    (x dest : ℕ) (t : Target) → IsOutside x dest field.data_size → Keeps x t (func field dest t)

-- A value is read from the stream, and stored.
stored-Keeps :
    (x : ℕ) (d : Decoder ℕ) (f : ℕ → FieldAction (Unit {0})) (t : Target)
    → ((v : ℕ) (u : Target) → Keeps x u (f v u))
    → Keeps x t ((on_stream d >>= f) t)
stored-Keeps x d f t h = Keeps-bind x (on_stream d) f t refl h

-- The field has room for a word of a fixed width.
pub record IsWide (field : PbField) : Type 0 where
  pub word32 : (pb_ltype field.type == Ltype.fixed32) ≡ true → 4 ≤ field.data_size
  pub word64 : (pb_ltype field.type == Ltype.fixed64) ≡ true → 8 ≤ field.data_size

module _ (field : PbField) (wide : IsWide field) where
  fixed32-StaysInside :
      (pb_ltype field.type == Ltype.fixed32) ≡ true → StaysInside pb_dec_fixed32 field
  unfolding pb_dec_fixed32
  fixed32-StaysInside e x dest t out = stored-Keeps x pb_decode_fixed32 (assign 4 dest) t (λ v u.
      store-outside u.memory 4 dest v x (
        IsOutside-within x dest field.data_size dest 4 out (omega arith)
          (omega (arith, wide.word32 e))))

  fixed64-StaysInside :
      (pb_ltype field.type == Ltype.fixed64) ≡ true → StaysInside pb_dec_fixed64 field
  unfolding pb_dec_fixed64
  fixed64-StaysInside e x dest t out = stored-Keeps x pb_decode_fixed64 (assign 8 dest) t (λ v u.
      store-outside u.memory 8 dest v x (
        IsOutside-within x dest field.data_size dest 8 out (omega arith)
          (omega (arith, wide.word64 e))))

  StaysInside-when :
      (b : Bool) (f g : FieldDecoder)
      → (b ≡ true → StaysInside f field)
      → (b ≡ false → StaysInside g field)
      → StaysInside (if b then f else g) field
  StaysInside-when true f g p q = p refl
  StaysInside-when false f g p q = q refl

  pub pb_decoders-StaysInside :
      (realloc : Realloc) (submessage : FieldDecoder)
      → leb (pb_ltype field.type) Ltype.last_packable ≡ true
      → StaysInside (pb_decoders realloc submessage (pb_ltype field.type)) field
  unfolding pb_decoders pb_dec_varint pb_dec_uvarint pb_dec_svarint
  pb_decoders-StaysInside realloc submessage small =
      let ltype = pb_ltype field.type in
      let size = field.data_size in
      StaysInside-when (ltype == Ltype.varint) pb_dec_varint _
        (λ e x dest t out.
          stored-Keeps x pb_decode_varint (λ v. put_signed size dest (dec_varint_value size v)) t
            (λ v u. put_signed-Keeps x size dest (dec_varint_value size v) u out))
        (λ n0.
          StaysInside-when (ltype == Ltype.uvarint) pb_dec_uvarint _
            (λ e x dest t out.
              stored-Keeps x pb_decode_varint (put_unsigned size dest) t
                (λ v u. put_unsigned-Keeps x size dest v u out))
            (λ n1.
              StaysInside-when (ltype == Ltype.svarint) pb_dec_svarint _
                (λ e x dest t out.
                  stored-Keeps x pb_decode_svarint (put_signed size dest) t
                    (λ v u. put_signed-Keeps x size dest v u out))
                (λ n2.
                  StaysInside-when (ltype == Ltype.fixed32) pb_dec_fixed32 _ fixed32-StaysInside
                    (λ n3.
                      StaysInside-when (ltype == Ltype.fixed64) pb_dec_fixed64 _ fixed64-StaysInside
                        (λ n4. absurd (ground arith))))))
