-- ===== src/Retention/Partitions.antt =====
-- The daily partitions of the events: the tables and
-- functions of server/alembic/versions/0001_v1_schema.py.
-- A day counts from the first day of the calendar, a time counts microseconds from its midnight, in
-- the time zone of the sessions.
use crashlens.Base.{
  ℕ, String, Bool, Option, none, some, List, [], ◌∷◌, ◌++◌, any, ltb, ◌==◌, string_eq,
  if◌then◌else◌, ◌>>=◌,
}
use crashlens.Retention.Stamps.{Calendar, sql_name, sql_stamp}

abbrev pub day_length : ℕ
day_length = 86_400_000_000

pub record Row : Type 0 where
  pub org_id : ℕ
  pub project_id : ℕ
  pub received_at : ℕ

-- A child table of `events`, for the rows that are received on one day.
pub record Partition : Type 0 where
  pub name : String
  pub day : ℕ
  pub rows : List Row

abbrev pub has_name : String → Partition → Bool
has_name name p = p.name == name

-- CREATE TABLE IF NOT EXISTS.
unfoldable pub create_events_partition : Calendar → ℕ → List Partition → List Partition
create_events_partition c day ps =
    if any (has_name (sql_name c day)) ps
    then ps
    else ps ++ record { name = sql_name c day; day = day; rows = [] } ∷ []

-- One round of the loop: the table stays, goes, or `to_date` raises.
abbrev pub drop_of : ℕ → Partition → Option ℕ → List Partition → Option (List Partition)
drop_of before p none kept = none
drop_of before p (some day) kept = if ltb day before then some kept else some (p ∷ kept)

abbrev pub drop_one :
    Calendar → ℕ → Partition → Option String → List Partition → Option (List Partition)
drop_one c before p none kept = some (p ∷ kept)
drop_one c before p (some stamp) kept = drop_of before p (c.to_date stamp) kept

unfoldable pub drop_events_partitions_before :
    Calendar → ℕ → List Partition → Option (List Partition)
unfolding sql_stamp
drop_events_partitions_before c before [] = some []
drop_events_partitions_before c before (p ∷ ps) = do
  kept ← drop_events_partitions_before c before ps
  drop_one c before p (sql_stamp p.name) kept
