-- ===== src/Codec/Natural.antt =====
-- The variable-length natural numbers of encoder.ts and decoder.ts.
pub mod Ranges
pub mod Encode
pub mod Decode
pub mod Narrow
pub mod RoundTrip
