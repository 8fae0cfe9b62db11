-- ===== src/Parsers.antt =====
-- src/utils/parsers.hpp: quantities of bytes and of seconds with a unit behind them.
pub mod Quantity
pub mod Scan
pub mod Numbers
mod Tests
