-- ===== src/Examples.antt =====
-- Runs of the C code's models on small inputs, and the theorems at concrete arguments.
mod Messages
mod Host
mod Decoded
mod Runs
mod Fields
mod Codecs
mod Texts
