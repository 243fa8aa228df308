-- ===== src/Event.antt =====
-- server/app/jobs/process_event.py: the worker that turns an ingested envelope into an issue.
pub mod Normalize
pub mod Fingerprint
pub mod Rows
pub mod Process
