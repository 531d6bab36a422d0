-- ===== src/Trading.antt =====
-- The trading system: include/order_book/trading and src/trading.
pub mod Messages
pub mod Engine
pub mod Replica
pub mod Codec
pub mod Journal
pub mod Strategy
pub mod Server
pub mod Tests
