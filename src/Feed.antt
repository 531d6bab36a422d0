-- ===== src/Feed.antt =====
-- The market-data feeds.
pub mod Keys
pub mod Bytes
pub mod Books
pub mod Pitch
pub mod Itch
pub mod Valid
pub mod Answers
pub mod Tests
