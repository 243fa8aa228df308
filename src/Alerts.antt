-- ===== src/Alerts.antt =====
-- server/app/alerts.py and server/app/jobs/alerts.py: the channels that alerts go to, and their
-- dispatch.
pub mod Config
pub mod Channels
pub mod Messages
pub mod Dispatch
mod Tests
