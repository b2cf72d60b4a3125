-- ===== src/Ingest.antt =====
-- internal/ingest: the webhook and the poller that turn JSON into raw sensor batches.
pub mod Types
pub mod Validate
pub mod Fanout
pub mod Webhook
pub mod Bms
mod Tests
