-- ===== src/Nanopb/Decode/Delimited.antt =====
-- ios/Pods/nanopb/pb_decode.c: work on a length-delimited payload of a memory buffer ends behind it.
use spar_somnong.Common.{ℕ, ◌-◌, ◌^◌, ◌≤◌, ◌<◌, ◌≡◌, refl, List, ◌++◌, length, ok}
use spar_somnong.Nanopb.Wire.{delimited}
use spar_somnong.Nanopb.Memory.{Memory}
use spar_somnong.Nanopb.Istream.ReadsValues.{
  pb_make_string_substream_lem, pb_close_string_substream_lem,
}
use spar_somnong.Nanopb.Decode.Target.{FieldAction}
use spar_somnong.Nanopb.Decode.ReadsBlocks.{buffered}
use spar_somnong.Nanopb.Decode.Host.{Host}
use spar_somnong.Nanopb.Decode.Substream.{close_and_return, with_substream, in_substream}
use spar_somnong.Nanopb.Decode.Message.{pb_decode, pb_decode_delimited}

in_substream_lem :
    (act : FieldAction (Unit {0})) (bs unread rest : List ℕ) (n : ℕ) (mem mem' : Memory)
    → length bs < 2 ^ 32
    → length (delimited bs) ≤ n
    → act (buffered (bs ++ rest) (length bs) mem)
      ≡ (ok tt, buffered (unread ++ rest) (length unread) mem')
    → in_substream act (buffered (delimited bs ++ rest) n mem)
      ≡ (ok tt, buffered rest (n - length (delimited bs)) mem')
unfolding in_substream with_substream close_and_return
in_substream_lem act bs unread rest n mem mem' small room e =
    rw
      (
        pb_make_string_substream_lem bs rest n small room,
        e,
        pb_close_string_substream_lem unread rest (bs ++ rest) (n - length (delimited bs)),
      )
      refl

-- On a memory buffer with a whole length-delimited message of less than 2 ^ 32 bytes, where
-- `pb_decode` decodes the message from its own bytes alone, `pb_decode_delimited` decodes it to
-- the same memory and leaves the stream exactly behind it.
pub pb_decode_delimited_lem :
    (host : Host) (fuel fields dest : ℕ) (bs unread rest : List ℕ) (n : ℕ) (mem mem' : Memory)
    → length bs < 2 ^ 32
    → length (delimited bs) ≤ n
    → pb_decode host fuel fields dest (buffered (bs ++ rest) (length bs) mem)
      ≡ (ok tt, buffered (unread ++ rest) (length unread) mem')
    → pb_decode_delimited host fuel fields dest (buffered (delimited bs ++ rest) n mem)
      ≡ (ok tt, buffered rest (n - length (delimited bs)) mem')
unfolding pb_decode_delimited
pb_decode_delimited_lem host fuel fields dest bs unread rest n mem mem' small room e =
    in_substream_lem (pb_decode host fuel fields dest) bs unread rest n mem mem' small room e
