-- ===== src/Channels.antt =====
-- channels/: the neutral messages, and the Dispatcher that posts them and waits for verdicts.
pub mod Types
pub mod Setup
pub mod Post
pub mod Race
pub mod Delivery
pub mod Verdicts
pub mod Durable
