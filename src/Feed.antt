-- ===== src/Feed.antt =====
-- The live submission feed of the competitor portal: which status updates count, how the event
-- stream is cut into events, and the provider's state.
pub mod Types
pub mod Progress
pub mod Stream
pub mod Summary
pub mod Provider
pub mod Actions
pub mod Session
pub mod Backend
pub mod Runs
