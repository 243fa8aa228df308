-- ===== src/Retention/Job.antt =====
-- server/app/jobs/retention.py: the two scheduled jobs on the partitions and the rows of `events`.
use crashlens.Base.{
  ℕ, zero, suc, ◌+◌, ◌-◌, ◌*◌, String, Bool, not, ◌&&◌, Option, none, some, List, [], ◌∷◌, ◌++◌,
  keep_if, map, max, ltb, ◌==◌, nat_eq, string_eq, if◌then◌else◌, ◌>>=◌,
}
use crashlens.SourceMap.Symbolicate.{Disk}
use crashlens.SourceMap.Files.{Tree, prune_expired_release_maps}
use crashlens.Retention.Stamps.{Calendar, python_stamp}
use crashlens.Retention.Partitions.{
  Row, Partition, day_length, create_events_partition, drop_events_partitions_before,
}

-- A row of `projects`: its id and its `retention_days`.
pub record Project : Type 0 where
  pub id : ℕ
  pub retention_days : ℕ

-- The projects of an organisation, as `_load_projects_by_org` reads them.
pub record Listing : Type 0 where
  pub org_id : ℕ
  pub projects : List Project

abbrev pub default_retention_days_fallback : ℕ
default_retention_days_fallback = 90

-- `[today + timedelta(days=offset) for offset in range(n)]`
abbrev pub days_from : ℕ → ℕ → List ℕ
days_from today zero = []
days_from today (suc n) = today ∷ days_from (suc today) n

unfoldable pub lookahead_partition_days : ℕ → ℕ → List ℕ
lookahead_partition_days today days_ahead = days_from today (days_ahead + 1)

-- none is the OverflowError of a day before the calendar's first.
unfoldable pub compute_retention_cutoff : ℕ → ℕ → Option ℕ
compute_retention_cutoff today global_max =
    if ltb today global_max then none else some (today - global_max)

abbrev pub max_of : ℕ → List ℕ → ℕ
max_of v [] = v
max_of v (w ∷ values) = max_of (max v w) values

unfoldable pub fold_global_max_retention_days : List ℕ → ℕ → ℕ
fold_global_max_retention_days [] fallback = fallback
fold_global_max_retention_days (v ∷ values) fallback = max_of v values

-- One round of the loop; none where `strptime` raises.
abbrev pub list_of : ℕ → String → Option ℕ → List String → Option (List String)
list_of cutoff name none older = none
list_of cutoff name (some day) older = if ltb day cutoff then some (name ∷ older) else some older

abbrev pub list_one : Calendar → ℕ → String → Option String → List String → Option (List String)
list_one c cutoff name none older = some older
list_one c cutoff name (some stamp) older = list_of cutoff name (c.strptime stamp) older

unfoldable pub partitions_older_than : Calendar → List String → ℕ → Option (List String)
unfolding python_stamp
partitions_older_than c [] cutoff = some []
partitions_older_than c (name ∷ names) cutoff = do
  older ← partitions_older_than c names cutoff
  list_one c cutoff name (python_stamp c name) older

unfoldable pub projects_needing_trim : List Project → ℕ → List Project
projects_needing_trim projects global_max =
    keep_if (λ (p : Project). ltb p.retention_days global_max) projects

abbrev pub create_all : Calendar → List ℕ → List Partition → List Partition
create_all c [] ps = ps
create_all c (day ∷ days) ps = create_all c days (create_events_partition c day ps)

unfoldable pub maintain_event_partitions : Calendar → ℕ → List Partition → List Partition
unfolding create_events_partition lookahead_partition_days
maintain_event_partitions c today ps = create_all c (lookahead_partition_days today 7) ps

-- The WHERE of the DELETE, in the rows that the tenant session sees.
abbrev pub is_expired : ℕ → ℕ → Project → Row → Bool
is_expired now org_id p row =
    row.org_id == org_id
    && (row.project_id == p.id && ltb row.received_at (now - p.retention_days * day_length))

abbrev pub delete_rows : (Row → Bool) → List Partition → List Partition
delete_rows gone ps =
    map (λ (q : Partition). record q { rows = keep_if (λ row. not (gone row)) q.rows }) ps

abbrev pub trim_projects : ℕ → ℕ → List Project → List Partition → List Partition
trim_projects now org_id [] ps = ps
trim_projects now org_id (p ∷ projects) ps =
    trim_projects now org_id projects (delete_rows (is_expired now org_id p) ps)

-- `now` gives the time at which an organisation's session begins.
unfoldable pub trim_over_retention_projects :
    (ℕ → ℕ) → List Listing → ℕ → List Partition → List Partition
unfolding projects_needing_trim
trim_over_retention_projects now [] global_max ps = ps
trim_over_retention_projects now (l ∷ listings) global_max ps =
    trim_over_retention_projects now listings global_max
      (trim_projects (now l.org_id) l.org_id (projects_needing_trim l.projects global_max) ps)

abbrev pub days_of : List Project → List ℕ
days_of projects = map (λ (p : Project). p.retention_days) projects

abbrev pub all_retention_days : List Listing → List ℕ
all_retention_days [] = []
all_retention_days (l ∷ listings) = days_of l.projects ++ all_retention_days listings

abbrev pub global_max_of : List Listing → ℕ
global_max_of listings =
    fold_global_max_retention_days (all_retention_days listings) default_retention_days_fallback

-- The partitions and rows after the job; none where it raises, before it has changed any.
unfoldable pub enforce_retention :
    Calendar → ℕ → (ℕ → ℕ) → List Listing → List Partition → Option (List Partition)
unfolding compute_retention_cutoff partitions_older_than
enforce_retention c today now listings ps = do
  cutoff ← compute_retention_cutoff today (global_max_of listings)
  about_to_drop ← partitions_older_than c (map (λ (p : Partition). p.name) ps) cutoff
  kept ← drop_events_partitions_before c cutoff ps
  some (trim_over_retention_projects now listings (global_max_of listings) kept)

-- The whole job: with the directories of source maps that it removes. They are older than the midnight
-- of the cutoff.
unfoldable pub run_retention :
    Calendar
    → Disk
    → Tree
    → String
    → ℕ
    → (ℕ → ℕ)
    → List Listing
    → List Partition
    → Option (List Partition × List String)
unfolding enforce_retention compute_retention_cutoff
run_retention c d t sourcemaps_dir today now listings ps = do
  after ← enforce_retention c today now listings ps
  cutoff ← compute_retention_cutoff today (global_max_of listings)
  some (after, prune_expired_release_maps d t sourcemaps_dir (cutoff * day_length))
