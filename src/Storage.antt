-- ===== src/Storage.antt =====
-- src/storage/in_memory: a sorted map with its size in bytes, its batches and its cursors.
pub mod Keys
pub mod Map
pub mod Lookup
pub mod Sizes
pub mod Memory
pub mod Cursor
mod Tests
