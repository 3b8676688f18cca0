-- ===== src/Nanopb/Encode.antt =====
-- ios/Pods/nanopb/pb_encode.c: encoding fields and messages that lie in memory.
pub mod Fields
pub mod Defaults
pub mod Array
pub mod Message
pub mod Bounds
pub mod FieldsSettled
pub mod SubmessageSettled
pub mod ArraySettled
pub mod CallbackSettled
pub mod MessageSettled
pub mod Size
pub mod Ends
pub mod EndsArray
pub mod EndsMessage
pub mod EndsProgram
pub mod Enough
