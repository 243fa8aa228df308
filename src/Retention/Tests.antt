-- ===== src/Retention/Tests.antt =====
-- Runs and witnesses of the two jobs, in a calendar of ten days.
use crashlens.Base.{
  ℕ, zero, suc, ◌+◌, ◌*◌, ◌≤◌, ◌≡◌, refl, String, Bool, true, Option, none, some, List, [], ◌∷◌,
  All, any, keep_if, take_text, leb, ◌&&◌, ◌==◌, nat_eq, string_eq, arith, if◌then◌else◌,
}
use crashlens.Retention.Stamps.{
  Calendar, IsCalendar, every, is_ascii_digit, sql_name, eight_digits, strip_prefix, python_stamp,
  sql_stamp,
}
use crashlens.Retention.Partitions.{Row, Partition, day_length, drop_events_partitions_before}
use crashlens.Retention.Job.{
  Listing, partitions_older_than, trim_over_retention_projects, projects_needing_trim,
  fold_global_max_retention_days, enforce_retention, maintain_event_partitions, global_max_of,
  compute_retention_cutoff,
}
use crashlens.Retention.Reference.{IsDaily, rows_of, is_retained, enforce_retention_lem}
use crashlens.Retention.Reference.Kept.{Reached, InWindow, enforce_retention-window}
use crashlens.Retention.Home.{is_home, jobs-home}

abbrev digits : ℕ → String
digits zero = "00000000"
digits (suc zero) = "00000001"
digits (suc (suc zero)) = "00000002"
digits (suc (suc (suc zero))) = "00000003"
digits (suc (suc (suc (suc zero)))) = "00000004"
digits (suc (suc (suc (suc (suc zero))))) = "00000005"
digits (suc (suc (suc (suc (suc (suc zero)))))) = "00000006"
digits (suc (suc (suc (suc (suc (suc (suc zero))))))) = "00000007"
digits (suc (suc (suc (suc (suc (suc (suc (suc zero)))))))) = "00000008"
digits (suc (suc (suc (suc (suc (suc (suc (suc (suc zero))))))))) = "00000009"
digits _ = ""

abbrev read_from : ℕ → ℕ → String → Option ℕ
read_from day zero s = none
read_from day (suc n) s =
    let later = read_from (suc day) n s in if s == digits day then some day else later

abbrev ten_days : Calendar
ten_days = record {
  days = 10;
  strftime = digits;
  to_char = digits;
  strptime = read_from 0 10;
  to_date = read_from 0 10;
  is_decimal = is_ascii_digit;
}

ten_days-IsCalendar : IsCalendar ten_days
unfolding every
ten_days-IsCalendar zero h = record {
  same = refl;
  long = refl;
  decimal = refl;
  ascii = refl;
  python_back = refl;
  sql_back = refl;
}
ten_days-IsCalendar (suc zero) h = record {
  same = refl;
  long = refl;
  decimal = refl;
  ascii = refl;
  python_back = refl;
  sql_back = refl;
}
ten_days-IsCalendar (suc (suc zero)) h = record {
  same = refl;
  long = refl;
  decimal = refl;
  ascii = refl;
  python_back = refl;
  sql_back = refl;
}
ten_days-IsCalendar (suc (suc (suc zero))) h = record {
  same = refl;
  long = refl;
  decimal = refl;
  ascii = refl;
  python_back = refl;
  sql_back = refl;
}
ten_days-IsCalendar (suc (suc (suc (suc zero)))) h = record {
  same = refl;
  long = refl;
  decimal = refl;
  ascii = refl;
  python_back = refl;
  sql_back = refl;
}
ten_days-IsCalendar (suc (suc (suc (suc (suc zero))))) h = record {
  same = refl;
  long = refl;
  decimal = refl;
  ascii = refl;
  python_back = refl;
  sql_back = refl;
}
ten_days-IsCalendar (suc (suc (suc (suc (suc (suc zero)))))) h = record {
  same = refl;
  long = refl;
  decimal = refl;
  ascii = refl;
  python_back = refl;
  sql_back = refl;
}
ten_days-IsCalendar (suc (suc (suc (suc (suc (suc (suc zero))))))) h = record {
  same = refl;
  long = refl;
  decimal = refl;
  ascii = refl;
  python_back = refl;
  sql_back = refl;
}
ten_days-IsCalendar (suc (suc (suc (suc (suc (suc (suc (suc zero)))))))) h = record {
  same = refl;
  long = refl;
  decimal = refl;
  ascii = refl;
  python_back = refl;
  sql_back = refl;
}
ten_days-IsCalendar (suc (suc (suc (suc (suc (suc (suc (suc (suc zero))))))))) h = record {
  same = refl;
  long = refl;
  decimal = refl;
  ascii = refl;
  python_back = refl;
  sql_back = refl;
}
ten_days-IsCalendar (suc (suc (suc (suc (suc (suc (suc (suc (suc (suc day)))))))))) h =
    absurd (omega arith)

abbrev row : ℕ → ℕ → ℕ → Row
row org_id project_id day = record {
  org_id = org_id;
  project_id = project_id;
  received_at = day * day_length;
}

abbrev table : ℕ → List Row → Partition
table day rows = record { name = sql_name ten_days day; day = day; rows = rows }

-- A project that keeps two days and one that keeps one, at day 3.
abbrev listings : List Listing
listings =
    record {
      org_id = 1;
      projects = record { id = 5; retention_days = 2 } ∷ record { id = 6; retention_days = 1 } ∷ [];
    }
    ∷ []

abbrev tables : List Partition
tables =
    table 0 (row 1 5 0 ∷ []) ∷ table 1 (row 1 6 1 ∷ row 1 5 1 ∷ []) ∷ table 2 (row 1 6 2 ∷ []) ∷ []

tables-IsDaily : All (IsDaily ten_days) tables
tables-IsDaily = (
  (refl, (refl, tt), omega arith),
  ((refl, (refl, (refl, tt)), omega arith), ((refl, (refl, tt), omega arith), tt)),
)

abbrev now : ℕ → ℕ
now org_id = 3 * day_length

two_days : global_max_of listings ≤ 2
unfolding fold_global_max_retention_days
two_days = omega arith

one_table_dropped :
    enforce_retention ten_days 3 now listings tables
    ≡ some (table 1 (row 1 5 1 ∷ []) ∷ table 2 (row 1 6 2 ∷ []) ∷ [])
unfolding enforce_retention fold_global_max_retention_days compute_retention_cutoff
    partitions_older_than drop_events_partitions_before python_stamp sql_stamp strip_prefix
    eight_digits every trim_over_retention_projects projects_needing_trim take_text
one_table_dropped = refl

enforce_retention_lem_example :
    (after : List Partition) × (enforce_retention ten_days 3 now listings tables ≡ some after)
    × (rows_of after ≡ keep_if (is_retained 3 now listings) (rows_of tables))
enforce_retention_lem_example =
    enforce_retention_lem ten_days 3 now listings tables ten_days-IsCalendar tables-IsDaily
      (omega (arith, two_days))

-- The rows of the first project from day 1 on.
abbrev young : Row → Bool
young r = r.org_id == 1 && (r.project_id == 5 && leb day_length r.received_at)

young-InWindow : (r : Row) → young r ≡ true → InWindow now listings r
young-InWindow r h =
    (ground arith, ((λ e. (λ its. ground arith, (λ other. absurd (ground arith), tt))), tt))

enforce_retention-window_example :
    (after : List Partition) × (enforce_retention ten_days 3 now listings tables ≡ some after)
    × All (Reached 3 listings) (rows_of after)
    × (keep_if young (rows_of after) ≡ keep_if young (rows_of tables))
enforce_retention-window_example =
    enforce_retention-window ten_days 3 now listings tables young ten_days-IsCalendar tables-IsDaily
      (omega (arith, two_days)) (λ org. omega arith) young-InWindow

jobs-home_example :
    (rows_of (maintain_event_partitions ten_days 2 tables) ≡ rows_of tables)
    × ((after : List Partition) × (enforce_retention ten_days 2 now listings
            (maintain_event_partitions ten_days 2 tables)
          ≡ some after)
        × All (IsDaily ten_days) after
        × (any (is_home (2 + 7)) after ≡ true))
jobs-home_example =
    jobs-home ten_days 2 7 now listings tables ten_days-IsCalendar tables-IsDaily two_days
      (omega arith) (omega arith)
