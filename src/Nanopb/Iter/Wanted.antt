-- ===== src/Nanopb/Iter/Wanted.antt =====
-- ios/Pods/nanopb/pb_common.c: the field that `pb_field_iter_find` looks for.
use spar_somnong.Common.{
  ℕ, ◌<◌, ◌≡◌, ◌≢◌, refl, ==_iff, Bool, true, false, List, length, ne→==, arith,
}
use spar_somnong.Nanopb.Types.{PbField, pb_ltype}
use spar_somnong.Nanopb.Ltype
use spar_somnong.Nanopb.Iter.{PbFieldIter, field_at, current, is_wanted}

-- The field has the tag and is no extension range.
abbrev pub IsWanted : ℕ → PbField → Type 0
IsWanted tag field = (field.tag ≡ tag) × (pb_ltype field.type ≢ Ltype.extension)

pub is_wanted→IsWanted :
    (tag : ℕ) (field : PbField) → is_wanted tag field ≡ true → IsWanted tag field
is_wanted→IsWanted tag field h = ground arith

IsWanted→is_wanted : (tag : ℕ) (field : PbField) → IsWanted tag field → is_wanted tag field ≡ true
IsWanted→is_wanted tag field h = rw ((==_iff field.tag tag).1 h.0, ne→== _ _ h.1) refl

pub not-IsWanted : (tag : ℕ) (field : PbField) → is_wanted tag field ≡ false → ¬ IsWanted tag field
not-IsWanted tag field unlike h = cc (unlike, IsWanted→is_wanted tag field h)

-- What a search gives: the field it stands on is the wanted one, or no field is.
pub data Search (fields : List PbField) (tag : ℕ) (r : Bool × PbFieldIter) : Type 0 where
  found : r.0 ≡ true → r.1.start ≡ fields → IsWanted tag (current r.1) → Search fields tag r
  missing :
      r.0 ≡ false
      → ((i : ℕ) → i < length fields → ¬ IsWanted tag (field_at fields i))
      → Search fields tag r
