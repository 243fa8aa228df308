-- ===== src/Store.antt =====
-- The rows of one organisation, which is all that a session of server/app/db.py's `tenant_session`
-- can read or write: a tenant session is a function of these rows, which commits by returning them
-- and rolls back by leaving them out. Tables of server/app/models/schema.py and
-- server/alembic/versions. The rows of a table stand in the order of their insertion.
pub mod Coherence
use crashlens.Base.{
  ℕ, String, Bool, true, false, ◌&&◌, Option, none, some, List, [], ◌∷◌, any, find_if, leb, ltb,
  ◌==◌, nat_eq, string_eq,
}
use crashlens.Json.{Json}

pub data Status : Type 0 where
  unresolved resolved ignored regressed : Status

abbrev pub is_status : Status → Status → Bool
is_status unresolved unresolved = true
is_status resolved resolved = true
is_status ignored ignored = true
is_status regressed regressed = true
is_status _ _ = false

pub record Issue : Type 0 where
  pub id : ℕ
  pub project : String
  pub fingerprint : String
  pub title : String
  pub level : String
  pub status : Status
  pub first_seen : ℕ
  pub last_seen : ℕ
  pub event_count : ℕ
  pub assigned_to : Option String
  pub resolved_in_release : Option String
  pub regressed_in_release : Option String

pub record Release : Type 0 where
  pub project : String
  pub version : String
  pub created_at : ℕ

pub record Event : Type 0 where
  pub project : String
  pub issue_id : ℕ
  pub event_id : String
  pub received_at : ℕ
  pub environment : String
  pub release : Option String
  pub level : String
  pub payload : Json

pub record Comment : Type 0 where
  pub id : ℕ
  pub issue_id : ℕ
  pub author : Option String
  pub body : String
  pub created_at : ℕ

-- A row of the audit log, with the fields of its data that are texts.
pub record Audit : Type 0 where
  pub action : String
  pub actor : Option String
  pub target : ℕ

pub record Tenant : Type 0 where
  pub projects : List String
  pub members : List String
  pub issues : List Issue
  pub releases : List Release
  pub events : List Event
  pub comments : List Comment
  pub audits : List Audit
  -- The ids that `gen_random_uuid` and `uuid4` draw are new: below this one all are in use.
  pub next_id : ℕ
  -- The daily partitions of `events`, which all organisations share, each by the time of its first row
  -- and the one that it ends before.
  pub partitions : List (ℕ × ℕ)

abbrev pub has_fingerprint : String → String → Issue → Bool
has_fingerprint project fingerprint issue =
    issue.project == project && issue.fingerprint == fingerprint

abbrev pub is_issue : String → ℕ → Issue → Bool
is_issue project id issue = issue.id == id && issue.project == project

abbrev pub is_release : String → String → Release → Bool
is_release project version release = release.project == project && release.version == version

abbrev pub is_event : String → String → Event → Bool
is_event project event_id event = event.project == project && event.event_id == event_id

-- `SELECT id FROM projects WHERE id = :pid`
abbrev pub has_project : Tenant → String → Bool
has_project t project = any (λ p. p == project) t.projects

-- The row of an event needs a partition for the time at which the event was received.
abbrev pub has_partition : Tenant → ℕ → Bool
has_partition t received_at =
    any (λ ((from, to) : ℕ × ℕ). leb from received_at && ltb received_at to) t.partitions
