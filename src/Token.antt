-- ===== src/Token.antt =====
-- crates/nr-token: the byte-level BPE tokenizer.
pub mod Blob
pub mod Encode
pub mod Pretok
