-- ===== src/Rocksdb.antt =====
-- src/rocksdb/: the physical formats of the archive.
pub mod PostingLocator
pub mod Keys
pub mod PostingBlock
pub mod Chunks
pub mod Utf8
pub mod Windows
pub mod Supersession
pub mod Outbox
