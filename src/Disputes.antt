-- ===== src/Disputes.antt =====
-- test-vectors/disputes/disputes.hpp: the disputes transition.
pub mod Types
pub mod Check
pub mod Multimap
pub mod Tally
pub mod Apply
pub mod Transition
pub mod Groups
pub mod Votes
pub mod Accusations
pub mod Counts
pub mod Overflow
pub mod Judged
pub mod Marked
pub mod Registry
pub mod Accepted
pub mod Outcome
pub mod Effects
mod Tests
