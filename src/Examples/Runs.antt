-- ===== src/Examples/Runs.antt =====
-- The message of Messages.antt decoded by ios/Pods/nanopb.
use spar_somnong.Common.{◌≡◌, refl, [], ◌∷◌, arith, some, ok, Outcome}
use spar_somnong.Nanopb.Types.{missing_required_field, pb_ltype, pb_htype, pb_atype, sign_extend}
use spar_somnong.Nanopb.Memory.{load, load_size}
use spar_somnong.Nanopb.Istream.{pb_readbyte, pb_read, read_now, raise}
use spar_somnong.Nanopb.Decode.Target.{Target, store}
use spar_somnong.Nanopb.Decode.Required.{all_seen}
use spar_somnong.Nanopb.Decode.Message.{
  decode_tagged, pb_dec_submessage, pb_decode, pb_decode_noinit,
}
use spar_somnong.Nanopb.Decode.AllRequired.{HasRequired, pb_decode_noinit-HasRequired}
use spar_somnong.Nanopb.Decode.Static.{decode_static_field}
use spar_somnong.Nanopb.Decode.Field.{pb_decoders}
use spar_somnong.Examples.Messages.{number, pair, table-IsTagged}
use spar_somnong.Nanopb.Decode.Message.{decode_fields}
use spar_somnong.Nanopb.Decode.Message.{scan_loop}
use spar_somnong.Nanopb.Decode.Message.{known_field}
use spar_somnong.Nanopb.Decode.Message.{choose_count}
use spar_somnong.Nanopb.Decode.Message.{check_scan}
use spar_somnong.Nanopb.Iter.{pb_field_iter_begin}
use spar_somnong.Nanopb.Iter.{pb_field_iter_find}
use spar_somnong.Nanopb.Iter.{find_loop}
use spar_somnong.Nanopb.Iter.{pb_field_iter_next}
use spar_somnong.Nanopb.Iter.{advance}
use spar_somnong.Nanopb.Iter.{in_same_union}
use spar_somnong.Nanopb.Iter.{size_in_struct}
use spar_somnong.Nanopb.Decode.Required.{mark_if_required}
use spar_somnong.Nanopb.Decode.Required.{mark_seen}
use spar_somnong.Nanopb.Decode.Required.{whole_words_seen}
use spar_somnong.Nanopb.Decode.Required.{required_count}
use spar_somnong.Nanopb.Decode.Required.{seek_end}
use spar_somnong.Nanopb.Decode.Field.{decode_field}
use spar_somnong.Nanopb.Decode.Field.{decode_by_allocation}
use spar_somnong.Nanopb.Decode.Static.{decode_packed}
use spar_somnong.Nanopb.Decode.Static.{packed_entries}
use spar_somnong.Nanopb.Decode.Static.{decode_next_item}
use spar_somnong.Nanopb.Decode.Static.{close_packed}
use spar_somnong.Nanopb.Decode.Numbers.{pb_dec_uvarint}
use spar_somnong.Nanopb.Decode.Numbers.{pb_dec_fixed32}
use spar_somnong.Nanopb.Decode.Numbers.{put_unsigned}
use spar_somnong.Nanopb.Decode.Substream.{count_item}
use spar_somnong.Nanopb.Decode.Substream.{item_address}
use spar_somnong.Nanopb.Decode.Substream.{with_substream}
use spar_somnong.Nanopb.Decode.Substream.{close_and_return}
use spar_somnong.Nanopb.Istream.Values.{pb_decode_tag}
use spar_somnong.Nanopb.Istream.Values.{pb_decode_fixed32}
use spar_somnong.Nanopb.Istream.Values.{word32}
use spar_somnong.Nanopb.Istream.Values.{pb_make_string_substream}
use spar_somnong.Nanopb.Istream.Values.{pb_close_string_substream}
use spar_somnong.Nanopb.Istream.Varints.{pb_decode_varint32_eof}
use spar_somnong.Nanopb.Istream.Varints.{varint32_rest}
use spar_somnong.Nanopb.Istream.Varints.{varint32_loop}
use spar_somnong.Nanopb.Istream.Varints.{pb_decode_varint}
use spar_somnong.Nanopb.Istream.Varints.{varint_loop}
use spar_somnong.Nanopb.Istream.Varints.{pb_decode_varint32}
use spar_somnong.Common.{◌++◌}
use spar_somnong.Nanopb.Wire.{delimited, varint_bytes}
use spar_somnong.Nanopb.Decode.Heap.{for_fields, each_field}
use spar_somnong.Nanopb.Decode.Initial.{
  pb_message_set_to_defaults, pb_field_set_to_default, set_field, set_static, init_data,
}
use spar_somnong.Nanopb.Decode.Delimited.{pb_decode_delimited_lem}
use spar_somnong.Nanopb.Decode.ReadsBlocks.{buffered}
use spar_somnong.Nanopb.Decode.Message.{decode_initialized, pb_decode_delimited}
use spar_somnong.Examples.Host.{host, blank, wire, received}

-- The whole message decodes: the number is 300 and the words are 1 and 2.
whole_run : Outcome (Unit {0}) × Target
whole_run = pb_decode_noinit host 3 1 100 (received 15)

whole_ok : pb_decode_noinit host 3 1 100 (received 15) ≡ (ok tt, whole_run.1)
unfolding whole_run pb_decode_noinit decode_fields pb_field_iter_begin scan_loop decode_tagged
    known_field choose_count mark_if_required mark_seen decode_field decode_by_allocation
    decode_static_field pb_decoders pb_dec_uvarint pb_dec_fixed32 put_unsigned decode_packed
    packed_entries decode_next_item close_packed count_item item_address with_substream
    close_and_return pb_dec_submessage check_scan all_seen whole_words_seen required_count seek_end
    pb_field_iter_find find_loop pb_field_iter_next advance in_same_union size_in_struct
    pb_decode_tag pb_decode_varint32_eof varint32_rest varint32_loop pb_decode_varint varint_loop
    pb_readbyte pb_read read_now pb_decode_fixed32 word32 pb_make_string_substream
    pb_close_string_substream pb_decode_varint32 store load load_size pb_ltype pb_htype pb_atype
    sign_extend raise
whole_ok = refl

whole_values :
    load whole_run.1.memory 4 100
      ∷ load whole_run.1.memory 4 104
      ∷ load whole_run.1.memory 4 108
      ∷ []
    ≡ 300 ∷ 1 ∷ 2 ∷ []
unfolding whole_run pb_decode_noinit decode_fields pb_field_iter_begin scan_loop decode_tagged
    known_field choose_count mark_if_required mark_seen decode_field decode_by_allocation
    decode_static_field pb_decoders pb_dec_uvarint pb_dec_fixed32 put_unsigned decode_packed
    packed_entries decode_next_item close_packed count_item item_address with_substream
    close_and_return pb_dec_submessage check_scan all_seen whole_words_seen required_count seek_end
    pb_field_iter_find find_loop pb_field_iter_next advance in_same_union size_in_struct
    pb_decode_tag pb_decode_varint32_eof varint32_rest varint32_loop pb_decode_varint varint_loop
    pb_readbyte pb_read read_now pb_decode_fixed32 word32 pb_make_string_substream
    pb_close_string_substream pb_decode_varint32 store load load_size pb_ltype pb_htype pb_atype
    sign_extend raise
whole_values = refl

-- Without the submessage a required field is missing.
short_run :
    (pb_decode_noinit host 3 1 100 (received 3)).1.stream.errmsg ≡ some missing_required_field
unfolding pb_decode_noinit decode_fields pb_field_iter_begin scan_loop decode_tagged known_field
    choose_count mark_if_required mark_seen decode_field decode_by_allocation decode_static_field
    pb_decoders pb_dec_uvarint pb_dec_fixed32 put_unsigned decode_packed packed_entries
    decode_next_item close_packed count_item item_address with_substream close_and_return
    pb_dec_submessage check_scan all_seen whole_words_seen required_count seek_end
    pb_field_iter_find find_loop pb_field_iter_next advance in_same_union size_in_struct
    pb_decode_tag pb_decode_varint32_eof varint32_rest varint32_loop pb_decode_varint varint_loop
    pb_readbyte pb_read read_now pb_decode_fixed32 word32 pb_make_string_substream
    pb_close_string_substream pb_decode_varint32 store load load_size pb_ltype pb_htype pb_atype
    sign_extend raise
short_run = refl

pb_decode_noinit-HasRequired_example :
    HasRequired host
      (pb_dec_submessage host 2 (pb_decode_noinit host 2))
      2
      900
      (number ∷ pair ∷ [])
      100
      (record (received 15) { memory = store blank 4 900 0 })
pb_decode_noinit-HasRequired_example =
    pb_decode_noinit-HasRequired host 2 1 100 (received 15) whole_run.1 (table-IsTagged 1) whole_ok

-- The message in front of another byte.
front_run : Outcome (Unit {0}) × Target
front_run = pb_decode host 3 1 100 (buffered (wire ++ (7 ∷ [])) 15 blank)

front_ok :
    pb_decode host 3 1 100 (buffered (wire ++ (7 ∷ [])) 15 blank)
    ≡ (ok tt, buffered ([] ++ (7 ∷ [])) 0 front_run.1.memory)
unfolding front_run pb_decode decode_initialized pb_message_set_to_defaults for_fields each_field
    pb_field_set_to_default set_field set_static init_data pb_decode_noinit decode_fields
    pb_field_iter_begin scan_loop decode_tagged known_field choose_count mark_if_required mark_seen
    decode_field decode_by_allocation decode_static_field pb_decoders pb_dec_uvarint pb_dec_fixed32
    put_unsigned decode_packed packed_entries decode_next_item close_packed count_item item_address
    with_substream close_and_return pb_dec_submessage check_scan all_seen whole_words_seen
    required_count seek_end pb_field_iter_find find_loop pb_field_iter_next advance in_same_union
    size_in_struct pb_decode_tag pb_decode_varint32_eof varint32_rest varint32_loop pb_decode_varint
    varint_loop pb_readbyte pb_read read_now pb_decode_fixed32 word32 pb_make_string_substream
    pb_close_string_substream pb_decode_varint32 store load load_size pb_ltype pb_htype pb_atype
    sign_extend raise
front_ok = refl

pb_decode_delimited_lem_example :
    pb_decode_delimited host 3 1 100 (buffered (delimited wire ++ (7 ∷ [])) 16 blank)
    ≡ (ok tt, buffered (7 ∷ []) 0 front_run.1.memory)
unfolding varint_bytes
pb_decode_delimited_lem_example =
    pb_decode_delimited_lem host 3 1 100 wire [] (7 ∷ []) 16 blank front_run.1.memory (omega arith)
      (omega arith) front_ok
