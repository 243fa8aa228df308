-- ===== src/Retention/Home.antt =====
-- The two jobs of server/app/jobs/retention.py, one after the other.
use crashlens.Base.{
  All-keep_if, ℕ, zero, suc, ◌+◌, ◌-◌, ◌≤◌, ◌<◌, ◌≡◌, refl, ap, ◌∙◌, sym, Bool, true, not, some,
  List, [], ◌∷◌, ◌++◌, All, All-append, any, any-append, keep_if, leb, ◌==◌, nat_eq, string_eq,
  eq_iff, arith, Bool-cases, inl, inr, if_both,
}
use crashlens.Retention.Stamps.{Calendar, IsCalendar, IsDay, sql_name, sql_stamp-name}
use crashlens.Retention.Partitions.{Row, Partition, has_name, create_events_partition}
use crashlens.Retention.Job.{
  Project, Listing, days_from, lookahead_partition_days, create_all, maintain_event_partitions,
  delete_rows, is_expired, trim_projects, projects_needing_trim, trim_over_retention_projects,
  global_max_of, enforce_retention,
}
use crashlens.Retention.Reference.{IsDaily, rows_of, enforce_retention-runs}

abbrev pub is_home : ℕ → Partition → Bool
is_home day p = p.day == day

-- The days can be told apart by the names of their partitions.
same_day : (c : Calendar) (a b : ℕ) → IsDay c a → IsDay c b → sql_name c a ≡ sql_name c b → a ≡ b
same_day c a b k l e = cc (e, sql_stamp-name c a k, sql_stamp-name c b l)

home_of_name :
    (c : Calendar) (day : ℕ) (ps : List Partition)
    → IsCalendar c
    → All (IsDaily c) ps
    → day < c.days
    → any (has_name (sql_name c day)) ps ≡ true
    → any (is_home day) ps ≡ true
home_of_name c day [] k daily old h = cc
home_of_name c day (p ∷ ps) k daily old h = elim (Bool-cases (has_name (sql_name c day) p)) [
  | inl hit ↦
      let named : p.name ≡ sql_name c day = ground (arith, eq_iff p.name (sql_name c day)) in
      let same : p.day ≡ day =
        same_day c p.day day (k p.day daily.0.2) (k day old) (sym daily.0.0 ∙ named) in
      ground arith
  | inr miss ↦ let rest = home_of_name c day ps k daily.1 old (ground arith) in ground arith
]

-- A partition is created for the day, and nothing else changes.
abbrev Created : Calendar → ℕ → List Partition → List Partition → Type 0
Created c day before after =
    All (IsDaily c) after
    × (any (is_home day) after ≡ true)
    × (rows_of after ≡ rows_of before)
    × ((d : ℕ) → any (is_home d) before ≡ true → any (is_home d) after ≡ true)

rows_of-append :
    (ps : List Partition) (p : Partition) → p.rows ≡ [] → rows_of (ps ++ p ∷ []) ≡ rows_of ps
rows_of-append [] p e = rw e refl
rows_of-append (q ∷ ps) p e = ap (λ rows. q.rows ++ rows) (rows_of-append ps p e)

create_lem :
    (c : Calendar) (day : ℕ) (ps : List Partition)
    → IsCalendar c
    → All (IsDaily c) ps
    → day < c.days
    → Created c day ps (create_events_partition c day ps)
unfolding create_events_partition
create_lem c day ps k daily old =
    let p : Partition = record { name = sql_name c day; day = day; rows = [] } in
    if_both (Created c day ps) (any (has_name (sql_name c day)) ps) _ _
      (λ is. (daily, home_of_name c day ps k daily old is, refl, λ d h. h))
      (λ _. (
        All-append _ ps (p ∷ []) daily ((refl, tt, old), tt),
        rw (any-append (is_home day) ps (p ∷ [])) (ground arith),
        rows_of-append ps p refl,
        λ d h. rw (any-append (is_home d) ps (p ∷ []), h) refl,
      ))

created_all :
    (c : Calendar) (start n : ℕ) (ps : List Partition)
    → IsCalendar c
    → All (IsDaily c) ps
    → start + n ≤ c.days
    → All (IsDaily c) (create_all c (days_from start n) ps)
      × ((offset : ℕ)
          → offset < n
          → any (is_home (start + offset)) (create_all c (days_from start n) ps) ≡ true)
      × (rows_of (create_all c (days_from start n) ps) ≡ rows_of ps)
      × ((d : ℕ)
          → any (is_home d) ps ≡ true
          → any (is_home d) (create_all c (days_from start n) ps) ≡ true)
created_all c start zero ps k daily old = (daily, λ offset h. absurd (omega arith), refl, λ d h. h)
created_all c start (suc n) ps k daily old =
    let (d1, here, rows1, keeps1) = create_lem c start ps k daily (omega arith) in
    let (d2, homes, rows2, keeps2) =
      created_all c (suc start) n (create_events_partition c start ps) k d1 (omega arith) in
    (d2, go here homes keeps2, rows2 ∙ rows1, λ d h. keeps2 d (keeps1 d h))
  where
    go :
        any (is_home start) (create_events_partition c start ps) ≡ true
        → ((offset : ℕ)
            → offset < n
            → any
                (is_home (suc start + offset))
                (create_all c (days_from (suc start) n) (create_events_partition c start ps))
              ≡ true)
        → ((d : ℕ)
            → any (is_home d) (create_events_partition c start ps) ≡ true
            → any
                (is_home d)
                (create_all c (days_from (suc start) n) (create_events_partition c start ps))
              ≡ true)
        → (offset : ℕ) → offset < suc n
        → any (is_home (start + offset)) (create_all c (days_from start (suc n)) ps) ≡ true
    go here homes keeps zero h = let e : start + 0 ≡ start = omega arith in rw e (keeps start here)
    go here homes keeps (suc offset) h =
        let e : start + suc offset ≡ suc start + offset = omega arith in
        rw e (homes offset (omega arith))

-- Deleting rows keeps the tables.
IsDaily-delete :
    (c : Calendar) (gone : Row → Bool) (ps : List Partition)
    → All (IsDaily c) ps
    → All (IsDaily c) (delete_rows gone ps)
      × ((d : ℕ) → any (is_home d) (delete_rows gone ps) ≡ any (is_home d) ps)
IsDaily-delete c gone [] daily = (tt, λ d. refl)
IsDaily-delete c gone (p ∷ ps) daily =
    let (rest, homes) = IsDaily-delete c gone ps daily.1 in
    (
      ((daily.0.0, All-keep_if _ (λ row. not (gone row)) p.rows daily.0.1, daily.0.2), rest),
      λ d. rw (homes d) refl,
    )

IsDaily-projects :
    (c : Calendar) (now org_id : ℕ) (projects : List Project) (ps : List Partition)
    → All (IsDaily c) ps
    → All (IsDaily c) (trim_projects now org_id projects ps)
      × ((d : ℕ) → any (is_home d) (trim_projects now org_id projects ps) ≡ any (is_home d) ps)
IsDaily-projects c now org_id [] ps daily = (daily, λ d. refl)
IsDaily-projects c now org_id (p ∷ projects) ps daily =
    let (one, home) = IsDaily-delete c (is_expired now org_id p) ps daily in
    let (rest, homes) =
      IsDaily-projects c now org_id projects (delete_rows (is_expired now org_id p) ps) one in
    (rest, λ d. homes d ∙ home d)

IsDaily-trim :
    (c : Calendar) (now : ℕ → ℕ) (global_max : ℕ) (listings : List Listing) (ps : List Partition)
    → All (IsDaily c) ps
    → All (IsDaily c) (trim_over_retention_projects now listings global_max ps)
      × ((d : ℕ)
          → any (is_home d) (trim_over_retention_projects now listings global_max ps)
            ≡ any (is_home d) ps)
unfolding trim_over_retention_projects
IsDaily-trim c now global_max [] ps daily = (daily, λ d. refl)
IsDaily-trim c now global_max (l ∷ listings) ps daily =
    let under = projects_needing_trim l.projects global_max in
    let (one, home) = IsDaily-projects c (now l.org_id) l.org_id under ps daily in
    let (rest, homes) =
      IsDaily-trim c now global_max listings (trim_projects (now l.org_id) l.org_id under ps) one in
    (rest, λ d. homes d ∙ home d)

young_home :
    (cutoff d : ℕ) (ps : List Partition)
    → cutoff ≤ d
    → any (is_home d) ps ≡ true
    → any (is_home d) (keep_if (λ (p : Partition). leb cutoff p.day) ps) ≡ true
young_home cutoff d [] young h = h
young_home cutoff d (p ∷ ps) young h = elim (Bool-cases (p.day == d)) [
  | inl its ↦ let is : leb cutoff p.day ≡ true = ground arith in rw is (rw its refl)
  | inr other ↦
      let rest = young_home cutoff d ps young (ground arith) in
      elim (Bool-cases (leb cutoff p.day)) [
        | inl kept ↦ rw (kept, other) rest
        | inr dropped ↦ rw dropped rest
      ]
]

-- The two jobs, one after the other on the same day, whichever way round the rows and the retention of
-- the projects are: both run to their end, the partitions are still named for their days and hold rows
-- of their days, and each of the days from today to the seventh after it has a partition for the
-- events that are received on it. The maintenance itself changes no row. The partitions are named for
-- their days and hold rows of their days before, and the calendar reaches back far enough and a week
-- ahead.
pub jobs-home :
    (c : Calendar) (today offset : ℕ) (now : ℕ → ℕ) (listings : List Listing) (ps : List Partition)
    → IsCalendar c
    → All (IsDaily c) ps
    → global_max_of listings ≤ today
    → today + 7 < c.days
    → offset ≤ 7
    → (rows_of (maintain_event_partitions c today ps) ≡ rows_of ps)
      × ((after : List Partition) × (enforce_retention c today now listings
              (maintain_event_partitions c today ps)
            ≡ some after)
          × All (IsDaily c) after
          × (any (is_home (today + offset)) after ≡ true))
unfolding maintain_event_partitions lookahead_partition_days
jobs-home c today offset now listings ps k daily reach last h =
    let (made, homes, rows, _) = created_all c today 8 ps k daily (omega arith) in
    let global_max = global_max_of listings in
    let cutoff = today - global_max in
    let ps' = create_all c (days_from today 8) ps in
    let kept = keep_if (λ (p : Partition). leb cutoff p.day) ps' in
    let (still, same) =
      IsDaily-trim c now global_max listings kept
        (All-keep_if _ (λ (p : Partition). leb cutoff p.day) ps' made) in
    (
      rows,
      (
        trim_over_retention_projects now listings global_max kept,
        enforce_retention-runs c today now listings ps' k made reach,
        still,
        same (today + offset)
            ∙ young_home cutoff (today + offset) ps' (omega arith) (homes offset (omega arith)),
      ),
    )
