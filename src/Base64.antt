-- ===== src/Base64.antt =====
-- ios/Pods/FirebaseDatabase/Firebase/Database/third_party/SocketRocket/fbase64.c: base64 text.
pub mod Encode
pub mod Decode
pub mod Table
pub mod Format
pub mod Groups
pub mod EncodeLaws
pub mod RoundTrip
pub mod Bytes
pub mod Steps
