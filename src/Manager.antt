-- ===== src/Manager.antt =====
-- src/se/impl/subscription_manager.hpp: the engines by the types of the events' arguments.
pub mod Engines
pub mod Shared
mod Tests
