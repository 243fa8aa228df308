-- ===== src/Issues.antt =====
-- server/app/issues.py: the services on the issues of one organisation. Every function of a session
-- is one on the rows that it sees; a timestamp counts microseconds and a date counts days.
pub mod Queries
pub mod Actions
pub mod Status
pub mod History
pub mod Resolve
pub mod Pages
pub mod Occurrences
mod Tests
