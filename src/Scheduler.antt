-- ===== src/Scheduler.antt =====
-- src/se/impl/scheduler_impl.hpp: the queue of timed tasks of a thread.
pub mod Queue
pub mod Steps
pub mod Order
pub mod Sound
pub mod Reachable
pub mod Loop
pub mod Timely
pub mod Kept
pub mod Wakes
mod Tests
mod LoopTests
