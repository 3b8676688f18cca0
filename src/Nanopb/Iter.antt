-- ===== src/Nanopb/Iter.antt =====
-- ios/Pods/nanopb/pb_common.c: the iterator over the fields of a message.
pub mod Wanted
pub mod Search
pub mod Placed
use spar_somnong.Common.{
  ℕ, zero, suc, ◌+◌, ◌*◌, Bool, true, false, not, ◌&&◌, List, length, get_or, ◌==◌, if◌then◌else◌,
}
use spar_somnong.Nanopb.Types.{
  PbField, pb_last_field, pb_size_max, u64, sign_extend, pb_ltype, pb_htype, pb_atype,
}
use spar_somnong.Nanopb.Ltype
use spar_somnong.Nanopb.Htype
use spar_somnong.Nanopb.Atype

-- struct pb_field_iter_s. `pos` is the index into the descriptor array; `p_data` and `p_size` are
-- addresses.
pub record PbFieldIter : Type 0 where
  pub start : List PbField
  pub pos : ℕ
  pub required_field_index : ℕ
  pub dest_struct : ℕ
  pub p_data : ℕ
  pub p_size : ℕ

-- `fields[i]`; behind the last field stands the terminator.
abbrev pub field_at : List PbField → ℕ → PbField
field_at fields i = get_or fields i pb_last_field

-- `*iter->pos`
abbrev pub current : PbFieldIter → PbField
current it = field_at it.start it.pos

-- The address of the count or the has-flag that belongs to a field.
abbrev pub size_address : ℕ → PbField → ℕ
size_address p_data field = u64 (p_data + sign_extend 32 field.size_offset)

abbrev pub iter_at_start : List PbField → ℕ → PbFieldIter
iter_at_start fields dest_struct =
    let first = field_at fields 0 in
    let p_data = u64 (dest_struct + first.data_offset) in
    record {
      start = fields;
      pos = 0;
      required_field_index = 0;
      dest_struct = dest_struct;
      p_data = p_data;
      p_size = size_address p_data first;
    }

unfoldable pub pb_field_iter_begin : List PbField → ℕ → Bool × PbFieldIter
pb_field_iter_begin fields dest_struct =
    (not ((field_at fields 0).tag == 0), iter_at_start fields dest_struct)

-- The size of the field's data in the struct.
unfoldable pub size_in_struct : PbField → ℕ
size_in_struct f =
    if pb_atype f.type == Atype.static && pb_htype f.type == Htype.repeated
    then u64 (f.data_size * f.array_size)
    else (if pb_atype f.type == Atype.pointer then 8 else f.data_size)

-- The next member of the same union stands at the same address.
unfoldable pub in_same_union : PbField → PbField → Bool
in_same_union prev cur =
    pb_htype prev.type == Htype.oneof
    && (pb_htype cur.type == Htype.oneof && cur.data_offset == pb_size_max)

unfoldable pub advance : PbField → PbField → PbFieldIter → PbFieldIter
advance prev cur it =
    let required =
      if pb_htype prev.type == Htype.required
      then it.required_field_index + 1
      else it.required_field_index in
    let p_data = u64 (it.p_data + size_in_struct prev + cur.data_offset) in
    if in_same_union prev cur then record it { pos = it.pos + 1 } else record it {
      pos = it.pos + 1;
      required_field_index = required;
      p_data = p_data;
      p_size = size_address p_data cur;
    }

unfoldable pub pb_field_iter_next : PbFieldIter → Bool × PbFieldIter
pb_field_iter_next it =
    let prev = current it in
    let cur = field_at it.start (it.pos + 1) in
    if prev.tag == 0
    then (false, it)
    else (if cur.tag == 0
        then (false, iter_at_start it.start it.dest_struct)
        else (true, advance prev cur it))

-- The field that the iterator stands on is the one looked for.
abbrev pub is_wanted : ℕ → PbField → Bool
is_wanted tag field = field.tag == tag && not (pb_ltype field.type == Ltype.extension)

-- The search loop, with the position where it began; the rounds are counted by `fuel`.
unfoldable pub find_loop : ℕ → ℕ → ℕ → PbFieldIter → Bool × PbFieldIter
find_loop zero tag from it = (false, it)
find_loop (suc fuel) tag from it =
    let it' = (pb_field_iter_next it).1 in
    let more = find_loop fuel tag from it' in
    if is_wanted tag (current it)
    then (true, it)
    else (if it'.pos == from then (false, it') else more)

-- A search goes round the descriptor array once.
unfoldable pub pb_field_iter_find : PbFieldIter → ℕ → Bool × PbFieldIter
pb_field_iter_find it tag = find_loop (suc (length it.start)) tag it.pos it
