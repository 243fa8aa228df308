-- ===== src/Event/Rows.antt =====
-- The SQL statements of server/app/jobs/process_event.py on releases, issues and events.
use crashlens.Base.{
  ℕ, ◌+◌, max, String, Bool, true, false, ◌&&◌, Option, none, some, List, [], ◌∷◌, ◌++◌, any,
  find_if, update_where, ◌==◌, nat_eq, string_eq, if◌then◌else◌,
}
use mathlib.Core.Option
use crashlens.Json.{Json}
use crashlens.Store.{
  Status, unresolved, resolved, regressed, is_status, Issue, Release, Event, Tenant,
  has_fingerprint, is_release,
}

-- `_UPSERT_RELEASE_SQL`: a release that is there keeps its time.
unfoldable pub upsert_release : ℕ → String → String → List Release → List Release
upsert_release now project version releases =
    if any (is_release project version) releases
    then releases
    else releases ++ record { project = project; version = version; created_at = now } ∷ []

-- `_RELEASE_CREATED_AT_SQL`.
abbrev pub release_created_at : String → Option String → List Release → Option ℕ
release_created_at project none releases = none
release_created_at project (some version) releases =
    Option.map (λ (r : Release). r.created_at) (find_if (is_release project version) releases)

-- The version of a release column if it is a text that is not empty.
abbrev pub version_of : Option String → Option String
version_of none = none
version_of (some version) = if version == "" then none else some version

abbrev pub record_release : ℕ → String → Option String → List Release → List Release
record_release now project none releases = releases
record_release now project (some version) releases = upsert_release now project version releases

-- What `process_event` needs of the event, after normalization.
pub record Prepared : Type 0 where
  pub fingerprint : String
  pub title : String
  pub event_id : Json
  pub level : Json
  pub environment : Json
  pub release : Json
  pub payload : Json

-- The columns of the event, once the driver has taken them for texts.
pub record Columns : Type 0 where
  pub event_id : String
  pub level : String
  pub environment : String
  pub release : Option String

-- The row that `_UPSERT_ISSUE_SQL` inserts, and the one that it leaves on a conflict.
abbrev pub new_issue : Tenant → String → Prepared → Columns → ℕ → Issue
new_issue t project p c seen_at = record {
  id = t.next_id;
  project = project;
  fingerprint = p.fingerprint;
  title = p.title;
  level = c.level;
  status = unresolved;
  first_seen = seen_at;
  last_seen = seen_at;
  event_count = 1;
  assigned_to = none;
  resolved_in_release = none;
  regressed_in_release = none;
}

abbrev pub flips : Bool → Issue → Bool
flips should_regress issue = is_status issue.status resolved && should_regress

unfoldable pub bump_issue : Columns → ℕ → Bool → Issue → Issue
bump_issue c seen_at should_regress issue = record issue {
  last_seen = max issue.last_seen seen_at;
  event_count = issue.event_count + 1;
  level = c.level;
  status = if flips should_regress issue then regressed else issue.status;
  regressed_in_release =
      if flips should_regress issue then version_of c.release else issue.regressed_in_release;
}

pub record Upserted : Type 0 where
  pub issue : Issue
  pub inserted : Bool
  pub prior_status : Option Status

abbrev pub prior_issue : Tenant → String → String → Option Issue
prior_issue t project fingerprint = find_if (has_fingerprint project fingerprint) t.issues

abbrev pub upsert_at :
    Option Issue → Tenant → String → Prepared → Columns → ℕ → Bool → Upserted × Tenant
upsert_at none t project p c seen_at should_regress =
    let issue = new_issue t project p c seen_at in
    (
      record { issue = issue; inserted = true; prior_status = none },
      record t { issues = t.issues ++ issue ∷ []; next_id = t.next_id + 1 },
    )
upsert_at (some old) t project p c seen_at should_regress =
    let bump = bump_issue c seen_at should_regress in
    (
      record { issue = bump old; inserted = false; prior_status = some old.status },
      record t { issues = update_where (has_fingerprint project p.fingerprint) bump t.issues },
    )

abbrev pub upsert_issue : Tenant → String → Prepared → Columns → ℕ → Bool → Upserted × Tenant
upsert_issue t project p c = upsert_at (prior_issue t project p.fingerprint) t project p c

abbrev pub event_row : String → ℕ → Prepared → Columns → ℕ → Event
event_row project issue_id p c seen_at = record {
  project = project;
  issue_id = issue_id;
  event_id = c.event_id;
  received_at = seen_at;
  environment = c.environment;
  release = c.release;
  level = c.level;
  payload = p.payload;
}
