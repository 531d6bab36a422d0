-- ===== src/Net.antt =====
-- The event link: the frames of events and of acknowledgements.
pub mod Frames
pub mod Protocol
pub mod RoundTrip
pub mod Events
pub mod Tests
