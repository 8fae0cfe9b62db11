-- ===== src/Channel.antt =====
-- src/utils/channel.hpp: values handed from a sender to a receiver in another thread.
pub mod State
pub mod Steps
pub mod Places
pub mod Links
pub mod Promises
pub mod Alive
pub mod Waits
mod Tests
