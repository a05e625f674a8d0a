-- ===== src/Reader.antt =====
-- The reader's articles: internal/reader.
pub mod Periods
pub mod Sentences
