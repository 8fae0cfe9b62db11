-- ===== src/Dispatcher.antt =====
-- src/se/impl/async_dispatcher_impl.hpp: which thread gets a task.
pub mod Tasks
pub mod Placed
pub mod Bound
pub mod Runs
mod Tests
