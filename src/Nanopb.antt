-- ===== src/Nanopb.antt =====
-- ios/Pods/nanopb: the protobuf runtime in C.
pub mod Types
pub mod Ltype
pub mod Htype
pub mod Atype
pub mod Wire
pub mod Ostream
pub mod Istream
pub mod RoundTrip
pub mod Memory
pub mod Iter
pub mod Encode
pub mod Decode
pub mod Strings
