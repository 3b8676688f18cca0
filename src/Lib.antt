-- ===== src/Lib.antt =====
-- A model of the C code of this repository, with theorems about it. The application itself is a
-- Flutter program; the C code that is built into it on iOS is
--   * nanopb, under ios/Pods/nanopb: pb_encode.c, pb_decode.c, pb_common.c and their headers, which
--     encode and decode protocol buffers for the diagnostics and transport frameworks;
--   * fbase64.c, under ios/Pods/FirebaseDatabase/Firebase/Database/third_party/SocketRocket, the
--     base64 text of the web-socket client.
--
-- nanopb is modelled as the Pods project builds it (ios/Pods/Target Support Files/nanopb): pb_size_t
-- has 32 bits, memory allocation, error messages and 64-bit numbers are on. The machine is
-- little-endian with pointers, size_t and int64_t of 64 bits, and uint_fast8_t of 8 bits.
--
-- The files and what they model:
--   * Common: tests, lists, bit operations and calls. A C function that returns bool and works on
--     a stream is an `Action`, from the stream to an outcome and the stream afterwards. `failed`
--     is the result false, `fault` the call of a null function pointer, a division by zero or a
--     read of a variable as what it is not, and `out_of_fuel` the end of a bounded recursion of the
--     model.
--   * Nanopb.Types, Nanopb.Ltype, Nanopb.Htype, Nanopb.Atype: pb.h. Nanopb.Memory: the memory that
--     a message lies in, bytes by address, and the program's descriptors and callbacks by address.
--   * Nanopb.Ostream: pb_ostream_t, pb_write and the encoders of values. Ostream.Writes says what
--     it is to write given bytes: on a sizing stream to count them, in a buffer with room to store
--     them, in a buffer without room to fail inside the buffer. Ostream.Settled says that an
--     encoder writes certain bytes or succeeds on no sizing stream.
--   * Nanopb.Encode: the rest of pb_encode.c, from single fields to whole messages; the modules
--     whose names end in Settled or begin with Ends are proofs, Encode.Size and Encode.Enough the
--     conclusions.
--   * Nanopb.Iter: pb_common.c. `field_at` behind the last field of a descriptor array is the
--     terminator PB_LAST_FIELD.
--   * Nanopb.Istream: pb_istream_t and the part of pb_decode.c that reads values. Istream.Reads says
--     what it is to read given bytes of a memory buffer. Nanopb.RoundTrip joins the two sides.
--   * Nanopb.Decode: the rest of pb_decode.c, on a stream and the memory (`Target`). Target, Allocate,
--     Numbers, Blocks are the decoders of single values; Heap, Initial and Release the defaults and
--     pb_release; Substream, Static, Pointer, Callback, Field the fields of every allocation, unions
--     and extensions; Required the bitmap `fields_seen`; Message the loop of pb_decode_noinit and the
--     entry points. `Host` holds what the code calls and does not define: descriptors, the
--     allocator, callbacks, and the address of the local variable `fixed_count_size`, which field
--     decoders reach through the iterator. A field decoder returns the iterator where the code moves
--     it. Memory is only changed by bytes that were read: what a user's callback leaves behind a
--     failed read is not modelled.
--     The other modules are proofs: Restores* of round trips, Done, ReleaseDone, Advances*, Ending*
--     and Enough of coming to an end, Confined* of the memory that is touched, RequiredSeen,
--     RequiredSet, RequiredCount, Returns*, Reaches, Tracked and AllRequired of required fields,
--     Unknown of unknown fields and the empty input, Released of pointers that are released, and
--     Delimited of length-delimited messages.
--   * Nanopb.Wire: the wire format, written down apart from the code.
--   * Nanopb.Strings: the strings of C in memory, by their characters and their NUL.
--   * Base64: f_b64_ntop and f_b64_pton, with strchr and isspace of the C locale. Base64.Format is
--     base64 text as RFC 4648 has it, written down apart from the code.
--   * Examples: runs, and the theorems at concrete arguments.
--
-- Callbacks of the library's user are parameters: fields of `Program`, and functions in user streams.
-- `IsProgram` is what pb.h and pb_encode.h ask of them, to write the same data in every pass.
-- Numbers are natural numbers; a signed integer is its bit pattern, and wrap-around is written out.
--
-- Fuel: the loop over the fields takes the length of the descriptor array and the search one round
-- more; the varint loops take the bytes that are left, or the width of the number. `pb_encode` takes
-- fuel for the nesting of messages and the length of an extension list, which the C code does not
-- bound either; a theorem about a successful call holds at every fuel, and Encode.Enough says what
-- is enough where the nesting is bounded and there are no extensions.
--
-- The loops of the decoder take a round for each byte that is left; `pb_decode` takes fuel like
-- `pb_encode`, for defaults, release and decoding alike, and Decode.Enough says what is enough. The
-- loop around a user's callback takes a round for each byte, and for each call that reads nothing
-- (`idle_calls`); in C it ends when the callback has read all.
--
-- Not modelled: the macros of pb.h that write descriptors down; the generated tables cct.nanopb.c
-- and firebasecore.nanopb.c; the Dart application and the frameworks in other languages.
pub mod Common
pub mod Nanopb
pub mod Base64
pub mod Examples
