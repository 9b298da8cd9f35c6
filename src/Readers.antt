-- ===== src/Readers.antt =====
-- readers/: the readers that choose what they read.
pub mod DecordReader
