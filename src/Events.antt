-- ===== src/Events.antt =====
-- src/events: the relay of the outbox and the consumer of its events.
pub mod Relay
pub mod Runner
pub mod Analytics
