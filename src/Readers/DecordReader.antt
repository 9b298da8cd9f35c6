-- ===== src/Readers/DecordReader.antt =====
-- readers/decord_reader.py.
pub mod Defs
pub mod Frames
pub mod InBounds
pub mod Reads
pub mod Selected
pub mod KeyFrames
pub mod Bounds
