-- ===== src/Event/Process.antt =====
-- `decide_regression` and `process_event` of
-- server/app/jobs/process_event.py. A timestamp is a number of microseconds.
pub mod Regression
pub mod Counts
pub mod Idempotent
pub mod Accepted
mod Tests
use crashlens.Base.{
  ℕ, ◌+◌, max, String, Bool, true, false, not, ◌&&◌, ◌||◌, Option, none, some, is_some, List, [],
  ◌∷◌, ◌++◌, any, find_if, update_where, ltb, leb, ◌==◌, nat_eq, string_eq, if◌then◌else◌,
}
use mathlib.Core.Option
use crashlens.Json.{Json, null, str, obj, Fields, get, get_or_null}
use crashlens.Runtime.{Runtime}
use crashlens.Store.{
  Status, unresolved, resolved, ignored, regressed, is_status, Issue, Release, Event, Tenant,
  has_fingerprint, has_project, has_partition, is_release, is_event,
}
use crashlens.Event.Normalize.{normalize_envelope}
use crashlens.Event.Fingerprint.{compute_fingerprint, derive_title, coerce_timestamp}
use crashlens.SourceMap.Symbolicate.{Disk, symbolicate_envelope}
use crashlens.Event.Rows.{
  Columns, Prepared, Upserted, bump_issue, event_row, flips, new_issue, prior_issue, record_release,
  release_created_at, upsert_at, upsert_issue, upsert_release, version_of,
}

-- A version that is missing or empty.
abbrev pub is_blank : Option String → Bool
is_blank none = true
is_blank (some version) = version == ""

abbrev pub newer : Option ℕ → Option ℕ → Bool
newer (some event_at) (some fix_at) = ltb fix_at event_at
newer _ _ = true

unfoldable pub decide_regression : Option String → Option String → Option ℕ → Option ℕ → Bool
decide_regression resolved_in_release event_release event_created_at resolved_created_at =
    if is_blank resolved_in_release
    then true
    else if is_blank event_release
    then true
    else newer event_created_at resolved_created_at

-- What the job returns, and what it hands to the dispatch of alerts.
pub record Signal : Type 0 where
  pub issue_id : ℕ
  pub status : Status
  pub created : Bool
  pub regressed : Bool
  pub regressed_in_release : Option String
  pub event_count : ℕ

-- `failed`: something is raised outside of the `try`, as where the database refuses a value; the transaction rolls back and the job is tried again.
pub data Result : Type 0 where
  poison duplicate failed : Result
  stored : Signal → Result

abbrev pub fix_release : Option Issue → Option String
fix_release none = none
fix_release (some issue) = issue.resolved_in_release

abbrev pub should_regress_on : String → Option Issue → Option String → List Release → Bool
should_regress_on project prior version releases =
    decide_regression (fix_release prior) version (release_created_at project version releases)
      (release_created_at project (version_of (fix_release prior)) releases)

abbrev pub was_resolved : Option Status → Bool
was_resolved none = false
was_resolved (some s) = is_status s resolved

-- The statements after the duplicate check, in their order.
unfoldable pub store_event : ℕ → ℕ → String → Prepared → Columns → Tenant → Signal × Tenant
store_event now seen_at project p c t =
    let version = version_of c.release in
    let t' = record t { releases = record_release now project version t.releases } in
    let should_regress =
      should_regress_on project (prior_issue t' project p.fingerprint) version t'.releases in
    let (row, t'') = upsert_issue t' project p c seen_at should_regress in
    let came_back =
      not row.inserted && was_resolved row.prior_status && is_status row.issue.status regressed in
    (
      record {
        issue_id = row.issue.id;
        status = row.issue.status;
        created = row.inserted;
        regressed = came_back;
        regressed_in_release = if came_back then version else none;
        event_count = row.issue.event_count;
      },
      record t'' { events = t''.events ++ event_row project row.issue.id p c seen_at ∷ [] },
    )

-- The part in the `try`, once the envelope is copied: none where something is raised, which makes
-- the event a poison event.
unfoldable pub prepare_copy :
    Runtime → Disk → ℕ → String → String → String → Fields → Option Prepared
prepare_copy rt disk depth maps_dir org project envelope =
    let normalized =
      symbolicate_envelope disk depth (normalize_envelope envelope) org project maps_dir in
    elim (compute_fingerprint rt normalized) [
      | none ↦ none
      | some fingerprint ↦ elim (get "event_id" normalized) [
        | none ↦ none
        | some event_id ↦ elim (get "level" normalized) [
          | none ↦ none
          | some level ↦ elim (get "environment" normalized) [
            | none ↦ none
            | some environment ↦ some (record {
              fingerprint = fingerprint;
              title = derive_title rt normalized;
              event_id = event_id;
              level = level;
              environment = environment;
              release = get_or_null "release" normalized;
              payload = obj normalized;
            })
          ]
        ]
      ]
    ]

-- The copy that the normalization works on needs a stack as deep as the envelope.
unfoldable pub prepare : Runtime → Disk → ℕ → String → String → String → Json → Option Prepared
prepare rt disk depth maps_dir org project (obj envelope) =
    if rt.copies depth (obj envelope)
    then prepare_copy rt disk depth maps_dir org project envelope
    else none
prepare rt disk depth maps_dir org project _ = none

abbrev pub level_names : List String
level_names = "fatal" ∷ "error" ∷ "warning" ∷ "info" ∷ "debug" ∷ []

abbrev pub text_column : Runtime → Json → Option String
text_column rt (str s) = if rt.is_text s then some s else none
text_column rt _ = none

abbrev pub release_column : Runtime → Json → Option (Option String)
release_column rt null = some none
release_column rt v = Option.map some (text_column rt v)

abbrev pub level_column : Json → Option String
level_column (str s) = if any (λ l. l == s) level_names then some s else none
level_column _ = none

abbrev pub uuid_column : Runtime → Json → Option String
uuid_column rt (str s) = rt.pg_uuid s
uuid_column rt _ = none

abbrev pub other_columns : Runtime → Prepared → String → Option Columns
other_columns rt p event_id = elim (level_column p.level) [
  | none ↦ none
  | some level ↦ elim (text_column rt p.environment) [
    | none ↦ none
    | some environment ↦ elim (release_column rt p.release) [
      | none ↦ none
      | some release ↦
          if rt.is_text p.title && rt.is_jsonb p.payload
          then some (record {
            event_id = event_id;
            level = level;
            environment = environment;
            release = release;
          })
          else none
    ]
  ]
]

abbrev pub store_columns : ℕ → ℕ → String → Prepared → Option Columns → Tenant → Result × Tenant
store_columns now seen_at project p none t = (failed, t)
store_columns now seen_at project p (some c) t =
    let (signal, t') = store_event now seen_at project p c t in
    if has_partition t seen_at then (stored signal, t') else (failed, t)

-- The transaction on the rows of the organisation: the duplicate check comes first.
abbrev pub transact_id :
    Runtime → ℕ → ℕ → String → Prepared → Option String → Tenant → Result × Tenant
transact_id rt now seen_at project p none t = (failed, t)
transact_id rt now seen_at project p (some event_id) t =
    if any (is_event project event_id) t.events
    then (duplicate, t)
    else if has_project t project
    then store_columns now seen_at project p (other_columns rt p event_id) t
    else (failed, t)

-- `json.dumps` comes before the transaction: like the cast to jsonb it keeps the value, and what
-- `copy.deepcopy` had the stack for is not too deep for it.
abbrev pub transact : Runtime → ℕ → ℕ → String → Option Prepared → Tenant → Result × Tenant
transact rt now seen_at project none t = (poison, t)
transact rt now seen_at project (some p) t =
    transact_id rt now seen_at project p (uuid_column rt p.event_id) t

unfoldable pub process_event :
    Runtime → Disk → ℕ → String → ℕ → String → String → String → Json → Tenant → Result × Tenant
process_event rt disk depth maps_dir now org project received_at envelope t =
    transact rt now (coerce_timestamp rt now received_at) project
      (prepare rt disk depth maps_dir org project envelope) t

-- The job for server/app/jobs/alerts.py, put on the queue once the transaction has committed.
pub data Kind : Type 0 where
  new_kind regression_kind : Kind

pub record AlertJob : Type 0 where
  pub issue_id : ℕ
  pub kind : Kind
  pub release : Option String

unfoldable pub alert_job : Result → Option AlertJob
alert_job (stored s) =
    if s.created || s.regressed
    then some (record {
      issue_id = s.issue_id;
      kind = if s.regressed then regression_kind else new_kind;
      release = s.regressed_in_release;
    })
    else none
alert_job _ = none
