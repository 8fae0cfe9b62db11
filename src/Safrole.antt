-- ===== src/Safrole.antt =====
-- test-vectors/safrole/safrole.hpp: the sealing tickets, entropy and validator rotation.
pub mod Types
pub mod Accumulate
pub mod Lowest
pub mod Union
pub mod Sequence
pub mod OutsideIn
pub mod Transition
pub mod Outcome
pub mod Epochs
pub mod Rotation
pub mod Returns
mod Tests
