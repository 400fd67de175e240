-- ===== src/Tokenization.antt =====
-- crates/features/tokenization/src: token, byte and text buffers, and the incremental UTF-8 decoder.
pub mod Buffers
pub mod Utf8
