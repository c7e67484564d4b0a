-- ===== src/Storage.antt =====
-- src/storage: the ring of recent messages and the segmented log on disk.
pub mod Circular
pub mod Codec
pub mod Format
pub mod Scan
pub mod Segment
pub mod Directory
pub mod Log
pub mod Open
pub mod History
mod Tests
