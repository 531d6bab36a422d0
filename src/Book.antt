-- ===== src/Book.antt =====
-- include/order_book/core/order_book.hpp and src/core/order_book.cpp, one child for each part:
-- the state, the operations that change it, the queries, and the proofs about them.
pub mod State
pub mod Apply
pub mod Queue
pub mod Rollback
pub mod Replace
pub mod Queries
pub mod Consistent
pub mod Levels
pub mod Nodes
pub mod Invariant
pub mod Spec
pub mod Views
pub mod Effects
pub mod Refine
pub mod Accepts
pub mod Reachable
pub mod Validate
pub mod Tests
