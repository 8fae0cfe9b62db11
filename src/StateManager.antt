-- ===== src/StateManager.antt =====
-- src/app/impl/state_manager_impl.cpp: the stages of the application and their callbacks.
pub mod Stages
pub mod Callbacks
pub mod Runs
pub mod Stopped
mod Tests
