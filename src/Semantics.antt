-- ===== src/Semantics.antt =====
-- Preparation and validation of an article's analysis: internal/semantics/types.go.
-- A Go string is the list of its code points here, so that a byte offset becomes the number of code
-- points before it; the records are those of Hashing.
pub mod Texts
pub mod Spans
pub mod Tokens
pub mod Anchors
pub mod Errors
pub mod Senses
pub mod Results
pub mod Members
pub mod Response
pub mod Encoding
pub mod Prepare
pub mod Chunks
pub mod Merging
pub mod Linguistic
pub mod Translation
pub mod Dictionary
