-- ===== src/Lib.antt =====
-- Crashlens: the server's path from an event on the wire to an issue on the screen.
--
-- The parts and how they interact. The ingest endpoint (server/app/routes/ingest.py with
-- server/app/ingest.py) authenticates the DSN key of a request, charges the rate limiter
-- (server/app/ratelimit.py), rolls the project's sampling, unpacks and validates the body and puts a
-- job on the queue. The job (server/app/jobs/process_event.py) normalizes the envelope, symbolicates
-- JavaScript frames through uploaded source maps (server/app/sourcemaps.py), groups the event by its
-- fingerprint, decides whether it brings a resolved issue back, and stores it; a new or returning
-- issue is handed to the alerts (server/app/jobs/alerts.py), which go to the channels of the
-- organisation (server/app/alerts.py). The issue services (server/app/issues.py) read these rows and
-- change the state of issues, and the nightly jobs (server/app/jobs/retention.py) remove old events.
-- Around this stand the accounts (server/app/accounts.py with auth.py, security.py, admin.py and cli.py
-- beside it), the projects with their DSN keys (server/app/projects.py), which the endpoint resolves,
-- and the audit log (server/app/audit.py), in which the writing operations leave their rows.
--
-- Which file models which part:
--   Ingest/Body       decompress_gzip            Ingest/Envelope   parse_json, validate_envelope
--   Ingest/Endpoint   ingest_event, resolve_dsn_key, _sampled_out
--   RateLimit         the Lua script, retry_after_seconds, check_rate_limit
--   Event/Normalize   normalize_envelope and its helpers
--   Event/Fingerprint compute_fingerprint, derive_title, _coerce_timestamp
--   Event/Process     decide_regression, the SQL statements, process_event
--   SourceMap/Vlq, /Mapping, /Symbolicate   decode_vlq, parse_source_map, symbolicate_envelope
--   SourceMap/Files   list_release_maps, delete_release_maps, prune_expired_release_maps
--   Issues/Queries, /Actions   the reading and the writing half of issues.py
--   Accounts/Users, /Login, /Signup, /Admin   accounts.py, auth.py, admin.py, cli.py
--   Accounts/History  these requests one after the other, as steps from the empty instance
--   Audit             _check_data_safety, record, list_audit_log
--   Workspace         the rows of projects, keys and channels, and the audited transaction
--   Projects          projects.py; Projects/Keys has the map of the keys as its specification
--   Alerts/Config, /Channels, /Messages, /Dispatch   alerts.py and jobs/alerts.py
--   Retention/Stamps, /Partitions, /Job   db.events_partition_name, the SQL functions, retention.py
--   Store             the rows of one organisation, which all jobs and services share
-- Json, Runtime and Base carry the JSON values, the library parameters and the shared lemmas; Samples
-- has the data of the tests. The children of a component hold its proofs and its tests.
--
-- State and operations. An operation on the database is a function on the rows of one organisation
-- (Store.Tenant), which is what a tenant session sees under row level security: it commits by
-- returning changed rows and rolls back by returning the old ones. So the isolation of organisations
-- is assumed, not shown. Redis is a function from keys to buckets with their expiry, the job queue is a
-- list. A raised exception is a value: none, or a constructor of the function's own result. Python's
-- and PostgreSQL's libraries (regular expressions, json, SHA-256, uuid, datetime, zlib, ILIKE, the file
-- system, argon2, urlsplit), the uuids that the database driver takes and the stack that a copy or a
-- parser needs are parameters: the records Runtime, Lua, Zlib, Web, Disk, Crypto, Texts, Calendar, Tree
-- and Codec, and the function Network. An event is stored only where a partition holds its time.
--
-- Numbers. Timestamps count microseconds. The limiter's clock has any number `hz` of ticks to the
-- second and counts tokens in parts of that size, which stands for the doubles of the source without
-- their rounding. The script's `tostring` keeps 14 digits: what is read back of the texts that it stores
-- is the record RateLimit.Lua, whose rounding RateLimit.Prints bounds; a sampling rate and a roll are counted in parts of a scale. UUIDs of rows are
-- numbers, drawn in ascending order or given by the request. A day of the retention counts from the
-- first day of the calendar, in the time zone of the sessions, and retention_days, which nothing in the
-- server writes, is a natural number.
--
-- Bounds and fuel. The cause chain is walked on the code's own depth of five. The decompression loop
-- runs on max_decompressed_bytes + 2 rounds, which suffices because every round but the last adds a
-- byte. A POST of an alert is tried on the code's own two attempts. The recursion of the
-- symbolication takes the depth that Python's stack has left as an argument, and below it the
-- exception that symbolicate_envelope swallows. All else is structural.
--
-- Not modelled: the routes, which are thin; the overview and the user list of the administration; the
-- writing of uploaded files, which the route does; database sessions, whose row level
-- security the functions have as their tests on org_id; the SDKs and the dashboard; logging;
-- concurrency within one transaction, for which PostgreSQL's locks are trusted, but for the toggle of an
-- administrator, whose count and update are two steps. The cache of parsed source maps is left out since
-- it is keyed by path and modification time.
pub mod Accounts
pub mod Audit
pub mod Retention
pub mod Workspace
pub mod Projects
pub mod Alerts
pub mod Base
pub mod Event
pub mod Ingest
pub mod Issues
pub mod Json
pub mod RateLimit
pub mod Runtime
pub mod Samples
pub mod SourceMap
pub mod Store
