-- ===== src/EventBus.antt =====
-- The class `EventBus` of events.py: the outbox is handed to a Redis stream, and what the stream
-- delivers is noted by receipts. Redis is outside: what is sent to it is kept as a log of the calls
-- that have returned, and what it delivers comes as an argument.
pub mod Publish
pub mod Consume
pub mod Outbox
pub mod Once
pub mod Delivered
