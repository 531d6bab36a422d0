-- ===== src/Trading/Engine.antt =====
-- `MatchingEngine` of include/order_book/trading/engine.hpp and src/trading/engine.cpp, one child
-- for each part, and the proofs.
pub mod State
pub mod Position
pub mod Risk
pub mod Plan
pub mod Submit
pub mod Process
pub mod Ensures
pub mod Numbering
pub mod Requests
pub mod Snapshot
pub mod Validate
pub mod Fingerprint
