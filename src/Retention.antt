-- ===== src/Retention.antt =====
-- server/app/jobs/retention.py, `events_partition_name` of server/app/db.py and the functions on
-- partitions of server/alembic/versions/0001_v1_schema.py.
pub mod Stamps
pub mod Partitions
pub mod Job
pub mod Reference
pub mod Home
mod Tests
