-- ===== src/Watchdog.antt =====
-- src/app/impl/watchdog.hpp: threads that have to show that they go on.
pub mod Threads
pub mod Alarms
pub mod Events
pub mod Runs
mod Tests
