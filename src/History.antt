-- ===== src/History.antt =====
-- test-vectors/history/history.hpp: the recent history and its Merkle mountain range.
pub mod Mmr
pub mod Represents
pub mod Blocks
pub mod Runs
pub mod Roots
mod Tests
