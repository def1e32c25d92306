-- ===== src/Codec.antt =====
-- packages/core/codec: the JAM codec.
pub mod Outcome
pub mod Words
pub mod Encoder
pub mod Decoder
pub mod Stream
pub mod Natural
pub mod Room
pub mod Integers
pub mod Sequence
