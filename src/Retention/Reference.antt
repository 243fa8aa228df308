-- ===== src/Retention/Reference.antt =====
-- What the nightly run of server/app/jobs/retention.py leaves of the events.
pub mod Kept
use crashlens.Base.{
  keep_if-append, keep_if-keep_if, keep_if-all, keep_if-nothing, keep_if-same, ℕ, ◌+◌, ◌-◌, ◌*◌,
  ◌/◌, ◌≤◌, ◌<◌, ◌≡◌, refl, ap, ◌∙◌, sym, String, Bool, true, false, not, ◌&&◌, Option, none, some,
  List, [], ◌∷◌, ◌++◌, All, All-imp, all, append_assoc, keep_if, map, ltb, leb, ◌==◌, nat_eq,
  string_eq, arith, Bool-cases, inl, inr, if◌then◌else◌, ◌>>=◌,
}
use crashlens.Retention.Stamps.{
  Calendar, IsCalendar, sql_name, events_partition_name, python_stamp, sql_stamp, python_stamp-name,
  sql_stamp-name,
}
use crashlens.Retention.Partitions.{
  Row, Partition, day_length, drop_events_partitions_before, drop_one,
}
use crashlens.Retention.Job.{
  Project, Listing, is_expired, delete_rows, trim_projects, trim_over_retention_projects,
  projects_needing_trim, partitions_older_than, list_one, compute_retention_cutoff, global_max_of,
  enforce_retention,
}

abbrev pub rows_of : List Partition → List Row
rows_of [] = []
rows_of (p ∷ ps) = p.rows ++ rows_of ps

-- The partitions are named for their days, which the calendar has, and each holds rows of its own day.
abbrev pub IsDaily : Calendar → Partition → Type 0
IsDaily c p =
    (p.name ≡ sql_name c p.day)
    × All (λ (row : Row). row.received_at / day_length ≡ p.day) p.rows
    × (p.day < c.days)

-- A row of a project that is older than the project's retention.
abbrev pub is_late : ℕ → ℕ → Row → Project → Bool
is_late now org_id row p =
    row.org_id == org_id
    && (row.project_id == p.id && ltb (row.received_at + p.retention_days * day_length) now)

abbrev pub is_trimmed : ℕ → ℕ → ℕ → Row → Project → Bool
is_trimmed now global_max org_id row p = ltb p.retention_days global_max && is_late now org_id row p

abbrev pub is_kept_by : (ℕ → ℕ) → ℕ → Row → Listing → Bool
is_kept_by now global_max row l =
    all (λ p. not (is_trimmed (now l.org_id) global_max l.org_id row p)) l.projects

-- The rows that stay: received on a day that the longest retention reaches, and not expired for their
-- own project.
abbrev pub is_retained : ℕ → (ℕ → ℕ) → List Listing → Row → Bool
is_retained today now listings row =
    leb (today - global_max_of listings) (row.received_at / day_length)
    && all (is_kept_by now (global_max_of listings) row) listings

expired_late :
    (now org_id : ℕ) (row : Row) (p : Project)
    → is_expired now org_id p row ≡ is_late now org_id row p
expired_late now org_id row p = ground arith

rows_of-delete :
    (gone : Row → Bool) (ps : List Partition)
    → rows_of (delete_rows gone ps) ≡ keep_if (λ row. not (gone row)) (rows_of ps)
rows_of-delete gone [] = refl
rows_of-delete gone (p ∷ ps) =
    rw (keep_if-append (λ row. not (gone row)) p.rows (rows_of ps), rows_of-delete gone ps) refl

rows_of-trim_projects :
    (now global_max org_id : ℕ) (projects : List Project) (ps : List Partition)
    → rows_of (trim_projects now org_id (projects_needing_trim projects global_max) ps)
      ≡ keep_if
          (λ row. all (λ p. not (is_trimmed now global_max org_id row p)) projects)
          (rows_of ps)
unfolding projects_needing_trim
rows_of-trim_projects now global_max org_id [] ps =
    sym (keep_if-all (λ row. true) (rows_of ps) (every (rows_of ps)))
  where
    every : (rows : List Row) → All (λ row. true ≡ true) rows
    every [] = tt
    every (row ∷ rows) = (refl, every rows)
rows_of-trim_projects now global_max org_id (p ∷ projects) ps =
    elim (Bool-cases (ltb p.retention_days global_max)) [
      | inl under ↦
          let ps' = delete_rows (is_expired now org_id p) ps in
          let rest = rows_of-trim_projects now global_max org_id projects ps' in
          let kept =
            (λ (row : Row). all (λ p. not (is_trimmed now global_max org_id row p)) projects) in
          rw (under, rest, rows_of-delete (is_expired now org_id p) ps)
            (keep_if-keep_if kept (λ row. not (is_expired now org_id p row)) (rows_of ps)
              ∙ keep_if-same _ _ (rows_of ps) (λ row. rw (expired_late now org_id row p) refl))
      | inr covered ↦ rw covered (rows_of-trim_projects now global_max org_id projects ps)
    ]

rows_of-trim :
    (now : ℕ → ℕ) (global_max : ℕ) (listings : List Listing) (ps : List Partition)
    → rows_of (trim_over_retention_projects now listings global_max ps)
      ≡ keep_if (λ row. all (is_kept_by now global_max row) listings) (rows_of ps)
unfolding trim_over_retention_projects
rows_of-trim now global_max [] ps =
    sym (keep_if-all (λ row. true) (rows_of ps) (every (rows_of ps)))
  where
    every : (rows : List Row) → All (λ row. true ≡ true) rows
    every [] = tt
    every (row ∷ rows) = (refl, every rows)
rows_of-trim now global_max (l ∷ listings) ps =
    let ps' =
      trim_projects (now l.org_id) l.org_id (projects_needing_trim l.projects global_max) ps in
    let rest = rows_of-trim now global_max listings ps' in
    let one = rows_of-trim_projects (now l.org_id) global_max l.org_id l.projects ps in
    rest
    ∙ ap (keep_if (λ row. all (is_kept_by now global_max row) listings)) one
    ∙ keep_if-keep_if _ (λ row. is_kept_by now global_max row l) (rows_of ps)

-- The tables that are dropped, when each is named for its day.
drop_lem :
    (c : Calendar) (cutoff : ℕ) (ps : List Partition)
    → IsCalendar c
    → All (IsDaily c) ps
    → drop_events_partitions_before c cutoff ps
      ≡ some (keep_if (λ (p : Partition). leb cutoff p.day) ps)
unfolding drop_events_partitions_before
drop_lem c cutoff [] k daily = refl
drop_lem c cutoff (p ∷ ps) k daily =
    let is_day = k p.day daily.0.2 in
    let rest = drop_lem c cutoff ps k daily.1 in
    let read = ap sql_stamp daily.0.0 ∙ sql_stamp-name c p.day is_day in
    elim (Bool-cases (leb cutoff p.day)) [
      | inl young ↦
          let is : ltb p.day cutoff ≡ false = ground arith in
          rw (rest, read, is_day.sql_back, is, young) refl
      | inr old ↦
          let is : ltb p.day cutoff ≡ true = ground arith in
          rw (rest, read, is_day.sql_back, is, old) refl
    ]

list_lem :
    (c : Calendar) (cutoff : ℕ) (ps : List Partition)
    → IsCalendar c
    → All (IsDaily c) ps
    → partitions_older_than c (map (λ (p : Partition). p.name) ps) cutoff
      ≡ some (map (λ (p : Partition). p.name) (keep_if (λ (p : Partition). ltb p.day cutoff) ps))
unfolding partitions_older_than events_partition_name
list_lem c cutoff [] k daily = refl
list_lem c cutoff (p ∷ ps) k daily =
    let is_day = k p.day daily.0.2 in
    let rest = list_lem c cutoff ps k daily.1 in
    let named : p.name ≡ events_partition_name c p.day = rw (← is_day.same) daily.0.0 in
    let read = ap (python_stamp c) named ∙ python_stamp-name c p.day is_day in
    elim (Bool-cases (ltb p.day cutoff)) [
      | inl old ↦ rw (rest, read, is_day.python_back, old) refl
      | inr young ↦ rw (rest, read, is_day.python_back, young) refl
    ]

rows_of-drop :
    (c : Calendar) (cutoff : ℕ) (ps : List Partition)
    → All (IsDaily c) ps
    → rows_of (keep_if (λ (p : Partition). leb cutoff p.day) ps)
      ≡ keep_if (λ (row : Row). leb cutoff (row.received_at / day_length)) (rows_of ps)
rows_of-drop c cutoff [] daily = refl
rows_of-drop c cutoff (p ∷ ps) daily =
    let q = (λ (row : Row). leb cutoff (row.received_at / day_length)) in
    let rest = rows_of-drop c cutoff ps daily.1 in
    let split = keep_if-append q p.rows (rows_of ps) in
    elim (Bool-cases (leb cutoff p.day)) [
      | inl young ↦
          rw
            (
              young,
              split,
              keep_if-all q p.rows (All-imp _ _ (λ row e. rw e young) p.rows daily.0.1),
              rest,
            )
            refl
      | inr old ↦
          rw
            (
              old,
              split,
              keep_if-nothing q p.rows (All-imp _ _ (λ row e. rw e old) p.rows daily.0.1),
              rest,
            )
            refl
    ]

-- The job runs to its end.
pub enforce_retention-runs :
    (c : Calendar) (today : ℕ) (now : ℕ → ℕ) (listings : List Listing) (ps : List Partition)
    → IsCalendar c
    → All (IsDaily c) ps
    → global_max_of listings ≤ today
    → enforce_retention c today now listings ps
      ≡ some (
          trim_over_retention_projects now listings
            (global_max_of listings)
            (keep_if (λ (p : Partition). leb (today - global_max_of listings) p.day) ps))
unfolding enforce_retention compute_retention_cutoff
enforce_retention-runs c today now listings ps k daily reach =
    let cutoff = today - global_max_of listings in
    let is : ltb today (global_max_of listings) ≡ false = ground arith in
    rw (is, list_lem c cutoff ps k daily, drop_lem c cutoff ps k daily) refl

-- The job runs to its end, and of the rows it keeps exactly those that were received on a day that the
-- longest retention of any project reaches and that are not older than their own project's retention
-- where this is shorter, in their order. The partitions are named for their days and hold rows of
-- their days, and the calendar reaches back far enough.
pub enforce_retention_lem :
    (c : Calendar) (today : ℕ) (now : ℕ → ℕ) (listings : List Listing) (ps : List Partition)
    → IsCalendar c
    → All (IsDaily c) ps
    → global_max_of listings ≤ today
    → (after : List Partition) × (enforce_retention c today now listings ps ≡ some after)
      × (rows_of after ≡ keep_if (is_retained today now listings) (rows_of ps))
enforce_retention_lem c today now listings ps k daily reach =
    let global_max = global_max_of listings in
    let cutoff = today - global_max in
    let kept = keep_if (λ (p : Partition). leb cutoff p.day) ps in
    (
      trim_over_retention_projects now listings global_max kept,
      enforce_retention-runs c today now listings ps k daily reach,
      rows_of-trim now global_max listings kept
          ∙ ap (keep_if (λ row. all (is_kept_by now global_max row) listings))
              (rows_of-drop c cutoff ps daily)
          ∙ keep_if-keep_if (λ row. all (is_kept_by now global_max row) listings)
              (λ (row : Row). leb cutoff (row.received_at / day_length)) (rows_of ps),
    )
