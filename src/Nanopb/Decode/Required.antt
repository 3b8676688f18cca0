-- ===== src/Nanopb/Decode/Required.antt =====
-- ios/Pods/nanopb/pb_decode.c: `fields_seen`, the bitmap of `pb_decode_noinit`, and the count of
-- required fields.
use spar_somnong.Common.{
  ℕ, zero, suc, ◌+◌, ◌-◌, ◌/◌, ◌^◌, bit_and, bit_or, Bool, true, not, ◌&&◌, List, [], ◌∷◌, length,
  get_or, set, ltb, ◌==◌, if◌then◌else◌,
}
use spar_somnong.Nanopb.Types.{u32, pb_htype, pb_max_required_fields}
use spar_somnong.Nanopb.Htype
use spar_somnong.Nanopb.Iter.{PbFieldIter, current, pb_field_iter_next}

-- A uint32_t for each 32 required fields.
abbrev pub none_seen : List ℕ
none_seen = 0 ∷ 0 ∷ []

abbrev pub all_bits : ℕ
all_bits = 2 ^ 32 - 1

-- `fields_seen[index >> 5] |= (uint32_t)1 << (index & 31)`
unfoldable pub mark_seen : ℕ → List ℕ → List ℕ
mark_seen index seen =
    let word = index / 2 ^ 5 in
    set seen word (bit_or (get_or seen word 0) (u32 (2 ^ bit_and index 31)))

-- A field is marked if it is required and among the first of these.
unfoldable pub mark_if_required : PbFieldIter → List ℕ → List ℕ
mark_if_required it seen =
    if pb_htype (current it).type == Htype.required
      && ltb it.required_field_index pb_max_required_fields
    then mark_seen it.required_field_index seen
    else seen

-- `for (i = 0; i < words; i++)` over whole words; `i` is the index of the first of `seen`.
unfoldable pub whole_words_seen : ℕ → List ℕ → ℕ → Bool
whole_words_seen zero seen i = true
whole_words_seen (suc words) seen i =
    get_or seen i 0 == all_bits && whole_words_seen words seen (i + 1)

-- Whether the first `count` fields are marked.
unfoldable pub all_seen : ℕ → List ℕ → Bool
all_seen count seen =
    let rest = bit_and count 31 in
    let rest_seen = get_or seen (count / 2 ^ 5) 0 == all_bits / 2 ^ (32 - rest) in
    whole_words_seen (count / 2 ^ 5) seen 0 && (if not (rest == 0) then rest_seen else true)

-- The loop to the end of the descriptor array: the index and the type of the last field, and the
-- iterator afterwards.
unfoldable pub seek_end : ℕ → PbFieldIter → ℕ × ℕ × PbFieldIter
seek_end zero it = (it.required_field_index, (current it).type, it)
seek_end (suc rounds) it =
    let next = pb_field_iter_next it in
    let more = seek_end rounds next.1 in
    if next.0 then more else (it.required_field_index, (current it).type, next.1)

-- The number of required fields that are checked. A turn needs a round for each field.
unfoldable pub required_count : PbFieldIter → ℕ
required_count it =
    let last = seek_end (length it.start) it in
    let fixup = pb_htype last.1 == Htype.required && not ((current last.2).tag == 0) in
    let count : ℕ = if fixup then last.0 + 1 else last.0 in
    if ltb pb_max_required_fields count then pb_max_required_fields else count
