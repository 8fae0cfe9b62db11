-- ===== src/Rocks.antt =====
-- src/storage/rocksdb: the storage on top of the RocksDB library.
pub mod Library
pub mod Spaces
pub mod Opening
pub mod Found
pub mod Reads
mod Tests
