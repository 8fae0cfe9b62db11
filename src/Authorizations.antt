-- ===== src/Authorizations.antt =====
-- test-vectors/authorizations/authorizations.hpp: the authorizer pools.
pub mod Transition
pub mod Bounds
pub mod Cores
pub mod Pools
mod Tests
