-- ===== src/Ingest.antt =====
-- The public ingest endpoint: server/app/ingest.py and server/app/routes/ingest.py.
pub mod Body
pub mod Envelope
pub mod Endpoint
mod Tests
