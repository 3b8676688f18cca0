-- ===== src/Examples/Decoded.antt =====
-- Steps of the decoder of ios/Pods/nanopb on parts of the message of Messages.antt.
use spar_somnong.Common.{
  ℕ, zero, suc, ◌≡◌, refl, true, if◌then◌else◌, [], ◌∷◌, arith, ok, return, ◌==◌, ◌↔◌, ◌<◌, inr,
}
use spar_somnong.Nanopb.Types.{missing_required_field, pb_ltype, pb_htype, pb_atype}
use spar_somnong.Nanopb.Iter.{
  iter_at_start, pb_field_iter_begin, pb_field_iter_next, pb_field_iter_find,
}
use spar_somnong.Nanopb.Iter.Placed.{IsPlaced, iter_at_start-IsPlaced, pb_field_iter-IsPlaced}
use spar_somnong.Nanopb.Decode.Target.{refuse, store}
use spar_somnong.Nanopb.Decode.Required.{all_seen}
use spar_somnong.Nanopb.Decode.RequiredSeen.{marks, contains}
use spar_somnong.Nanopb.Decode.RequiredSet.{all_seen_iff}
use spar_somnong.Nanopb.Decode.RequiredCount.{checked_fields}
use spar_somnong.Nanopb.Decode.Advances.{Advances}
use spar_somnong.Nanopb.Decode.Enough.{pb_decode-Advances}
use spar_somnong.Nanopb.Decode.Message.{
  start_scan, decode_tagged, pb_dec_submessage, pb_decode, pb_decode_noinit,
}
use spar_somnong.Nanopb.Decode.Unknown.{
  IsUnknown, Skips, decode_tagged-Skips, pb_decode_noinit-empty,
}
use spar_somnong.Nanopb.Decode.Static.{decode_static_field}
use spar_somnong.Nanopb.Decode.Field.{pb_decoders}
use spar_somnong.Nanopb.Decode.Confined.{Keeps, IsWide}
use spar_somnong.Nanopb.Decode.ConfinedStatic.{decode_static_field-Keeps}
use spar_somnong.Examples.Messages.{
  number, pair, words, program, depth, table-IsTagged, table-IsBelow,
}
use spar_somnong.Nanopb.Types.{PbField}
use spar_somnong.Nanopb.Encode.EndsMessage.{IsBelow}
use spar_somnong.Nanopb.Decode.Release.{pb_release_single_field}
use spar_somnong.Nanopb.Decode.Released.{Releases, pb_release_single_field-Releases}
use spar_somnong.Examples.Host.{host, blank, received, ranked_host}

pb_decode-Advances_example : Advances 0 (received 15) (pb_decode host 3 1 100 (received 15))
pb_decode-Advances_example = pb_decode-Advances host ranked_host 3 1 100 (received 15) (omega arith)

-- Both fields are marked, the second one twice.
all_seen_iff_example :
    (all_seen 2 (marks (1 ∷ 0 ∷ 1 ∷ [])) ≡ true)
    ↔ ((j : ℕ) → j < 2 → contains j (1 ∷ 0 ∷ 1 ∷ []) ≡ true)
all_seen_iff_example =
    all_seen_iff 2 (1 ∷ 0 ∷ 1 ∷ []) (omega arith) (omega arith, (omega arith, (omega arith, tt)))

words-IsWide : IsWide words
unfolding pb_ltype
words-IsWide = record { word32 = λ e. omega arith; word64 = λ e. absurd (cc e) }

-- Two words at 200 and a count at 208 leave the byte at 300 alone.
decode_static_field-Keeps_example : Keeps 300 (received 15) (
    decode_static_field
      (pb_decoders host.realloc
        (pb_dec_submessage host 2 (pb_decode_noinit host 2))
        (pb_ltype words.type))
      (record (iter_at_start (words ∷ []) 200) { p_size = 208 })
      (λ fields dest. return tt)
      2
      (received 15))
unfolding pb_ltype pb_htype
decode_static_field-Keeps_example =
    decode_static_field-Keeps host.realloc (pb_dec_submessage host 2 (pb_decode_noinit host 2))
      (λ fields dest. return tt) (record (iter_at_start (words ∷ []) 200) { p_size = 208 }) 2 300
      (received 15) words-IsWide refl (omega arith) (omega arith) (inr (omega arith))
      (inr (omega arith))

-- Field number 9 is not in the table.
decode_tagged-Skips_example :
    Skips
      (start_scan (iter_at_start (words ∷ []) 200))
      (decode_tagged host
        (pb_dec_submessage host 2 (pb_decode_noinit host 2))
        2
        900
        (start_scan (iter_at_start (words ∷ []) 200))
        5
        9)
      5
      (received 15)
unfolding pb_ltype
decode_tagged-Skips_example =
    decode_tagged-Skips host (pb_dec_submessage host 2 (pb_decode_noinit host 2)) 2 900 (words ∷ [])
      (start_scan (iter_at_start (words ∷ []) 200)) 5 9 (received 15) ((λ e. omega (arith, e)), tt)
      (refl, tt) (iter_at_start-IsPlaced (words ∷ []) 200 (omega arith)) unknown (omega arith)
  where
    unknown : IsUnknown 9 (words ∷ [])
    unknown zero lt e = omega (arith, e)
    unknown (suc i) lt e = absurd (omega arith)

-- The type has two required fields.
pb_decode_noinit-empty_example : pb_decode_noinit host 3 1 100 (received 0) ≡ (
    let u = record (received 0) { memory = store blank 4 900 0 } in
    if checked_fields (number ∷ pair ∷ []) == 0
    then (ok tt, u)
    else refuse missing_required_field u)
pb_decode_noinit-empty_example =
    pb_decode_noinit-empty host 2 1 100 (received 0) (table-IsTagged 1) (omega arith) refl

-- A string that the message points to.
abbrev blob : PbField
blob = record {
  tag = 3;
  type = 0x86;
  data_offset = 0;
  size_offset = 0;
  data_size = 1;
  array_size = 0;
  ptr = 0;
}

blob-IsBelow : IsBelow depth 0 blob
unfolding pb_ltype
blob-IsBelow = record { plain = refl; inner = λ e. absurd (cc e) }

pb_release_single_field-Releases_example :
    Releases 100
      (pb_release_single_field program (λ mem ptr. mem) 1 (iter_at_start (blob ∷ []) 100) blank)
unfolding pb_htype pb_atype
pb_release_single_field-Releases_example =
    pb_release_single_field-Releases program (λ mem ptr. mem) depth table-IsTagged table-IsBelow 0 0
      (iter_at_start (blob ∷ []) 100) blank (omega arith) blob-IsBelow refl refl

-- From the first field of two: the second field is next and is found.
pb_field_iter-IsPlaced_example :
    IsPlaced (number ∷ pair ∷ []) (pb_field_iter_begin (number ∷ pair ∷ []) 200).1
    × IsPlaced (number ∷ pair ∷ []) (pb_field_iter_next (iter_at_start (number ∷ pair ∷ []) 100)).1
    × IsPlaced
        (number ∷ pair ∷ [])
        (pb_field_iter_find (iter_at_start (number ∷ pair ∷ []) 100) 2).1
pb_field_iter-IsPlaced_example =
    pb_field_iter-IsPlaced (number ∷ pair ∷ [])
      ((λ e. omega (arith, e)), ((λ e. omega (arith, e)), tt))
      (iter_at_start (number ∷ pair ∷ []) 100) 2 200
      (iter_at_start-IsPlaced (number ∷ pair ∷ []) 100 (omega arith))
