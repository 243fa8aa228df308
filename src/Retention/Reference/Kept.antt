-- ===== src/Retention/Reference/Kept.antt =====
-- The run of server/app/jobs/retention.py and the retention of one project.
use crashlens.Base.{
  keep_if-keep_if, keep_if-same, keep_if_holds, ℕ, ◌+◌, ◌*◌, ◌/◌, ◌≤◌, ◌≡◌, ◌⊎◌, refl, ap, ◌∙◌, max,
  Bool, true, false, not, ◌&&◌, some, List, [], ◌∷◌, All, All-parts, all, any, keep_if, ◌==◌,
  nat_eq, string_eq, arith, Bool-cases, inl, inr,
}
use crashlens.Retention.Stamps.{Calendar, IsCalendar}
use crashlens.Retention.Partitions.{Row, Partition, day_length}
use crashlens.Retention.Job.{
  Project, Listing, max_of, days_of, all_retention_days, fold_global_max_retention_days,
  global_max_of, enforce_retention,
}
use crashlens.Retention.Reference.{
  IsDaily, rows_of, is_retained, is_kept_by, is_trimmed, enforce_retention_lem,
}

abbrev pub is_listed : List Listing → Row → Bool
is_listed listings row =
    any
      (λ (l : Listing).
        l.org_id == row.org_id && any (λ (p : Project). p.id == row.project_id) l.projects)
      listings

-- For the projects that a row is of.
abbrev pub ForProject : Row → (Listing → Project → Type 0) → Listing → Type 0
ForProject row P l =
    l.org_id ≡ row.org_id → All (λ (p : Project). p.id ≡ row.project_id → P l p) l.projects

-- A row is in the retention window of its project.
abbrev pub InWindow : (ℕ → ℕ) → List Listing → Row → Type 0
InWindow now listings row =
    (is_listed listings row ≡ true)
    × All (ForProject row (λ l p. now l.org_id ≤ row.received_at + p.retention_days * day_length))
        listings

-- No day of a row's project's retention has passed the day it was received on.
abbrev pub Reached : ℕ → List Listing → Row → Type 0
Reached today listings row =
    All (ForProject row (λ l p. today ≤ row.received_at / day_length + p.retention_days)) listings

abbrev Covered : ℕ → List Listing → Type 0
Covered most = All (λ (l : Listing). All (λ (p : Project). p.retention_days ≤ most) l.projects)

max_of-le :
    (v : ℕ) (values : List ℕ) → (v ≤ max_of v values) × All (λ w. w ≤ max_of v values) values
max_of-le v [] = (omega arith, tt)
max_of-le v (w ∷ values) =
    let rest = max_of-le (max v w) values in
    (omega (arith, rest.0), (omega (arith, rest.0), rest.1))

days_covered :
    (most : ℕ) (projects : List Project)
    → All (λ n. n ≤ most) (days_of projects)
    → All (λ (p : Project). p.retention_days ≤ most) projects
days_covered most [] h = tt
days_covered most (p ∷ projects) h = (h.0, days_covered most projects h.1)

covered :
    (most : ℕ) (listings : List Listing)
    → All (λ n. n ≤ most) (all_retention_days listings)
    → Covered most listings
covered most [] h = tt
covered most (l ∷ listings) h =
    let (a, b) = All-parts _ (days_of l.projects) (all_retention_days listings) h in
    (days_covered most l.projects a, covered most listings b)

fold_lem :
    (values : List ℕ) (fallback : ℕ)
    → All (λ n. n ≤ fold_global_max_retention_days values fallback) values
unfolding fold_global_max_retention_days
fold_lem [] fallback = tt
fold_lem (v ∷ values) fallback = max_of-le v values

reached_by :
    (today now most : ℕ) (org_id : ℕ) (row : Row) (projects : List Project)
    → org_id ≡ row.org_id
    → today * day_length ≤ now
    → today ≤ row.received_at / day_length + most
    → All (λ (p : Project). p.retention_days ≤ most) projects
    → all (λ p. not (is_trimmed now most org_id row p)) projects ≡ true
    → All
        (λ (p : Project).
          p.id ≡ row.project_id → today ≤ row.received_at / day_length + p.retention_days)
        projects
reached_by today now most org_id row [] mine begun old cov kept = tt
reached_by today now most org_id row (p ∷ projects) mine begun old cov kept = (
  λ e. ground arith,
  reached_by today now most org_id row projects mine begun old cov.1 (ground arith),
)

reached :
    (today : ℕ) (now : ℕ → ℕ) (most : ℕ) (row : Row) (listings : List Listing)
    → ((org : ℕ) → today * day_length ≤ now org)
    → today ≤ row.received_at / day_length + most
    → Covered most listings
    → all (is_kept_by now most row) listings ≡ true
    → Reached today listings row
reached today now most row [] begun old cov kept = tt
reached today now most row (l ∷ listings) begun old cov kept = (
  λ e.
      reached_by today (now l.org_id) most l.org_id row l.projects e (begun l.org_id) old cov.0
        (ground arith),
  reached today now most row listings begun old cov.1 (ground arith),
)

kept_by :
    (now most org_id : ℕ) (row : Row) (projects : List Project)
    → (org_id ≡ row.org_id
        → All
            (λ (p : Project).
              p.id ≡ row.project_id → now ≤ row.received_at + p.retention_days * day_length)
            projects)
    → all (λ p. not (is_trimmed now most org_id row p)) projects ≡ true
kept_by now most org_id row [] young = refl
kept_by now most org_id row (p ∷ projects) young =
    let rest = kept_by now most org_id row projects (λ e. (young e).1) in
    elim (Bool-cases (row.org_id == org_id)) [
      | inl mine ↦ elim (Bool-cases (row.project_id == p.id)) [
        | inl its ↦ let late = (young (ground arith)).0 (ground arith) in ground (arith, late, rest)
        | inr other ↦ ground (arith, rest)
      ]
      | inr other ↦ ground (arith, rest)
    ]

kept_by_all :
    (now : ℕ → ℕ) (most : ℕ) (row : Row) (listings : List Listing)
    → All
        (ForProject row (λ l p. now l.org_id ≤ row.received_at + p.retention_days * day_length))
        listings
    → all (is_kept_by now most row) listings ≡ true
kept_by_all now most row [] young = refl
kept_by_all now most row (l ∷ listings) young =
    let one = kept_by (now l.org_id) most l.org_id row l.projects young.0 in
    let rest = kept_by_all now most row listings young.1 in ground (arith, one, rest)

young_project :
    (today now most : ℕ) (row : Row) (projects : List Project)
    → today * day_length ≤ now
    → any (λ (p : Project). p.id == row.project_id) projects ≡ true
    → All (λ (p : Project). p.retention_days ≤ most) projects
    → All
        (λ (p : Project).
          p.id ≡ row.project_id → now ≤ row.received_at + p.retention_days * day_length)
        projects
    → today ≤ row.received_at / day_length + most
young_project today now most row [] begun listed cov young = cc
young_project today now most row (p ∷ projects) begun listed cov young =
    elim (Bool-cases (p.id == row.project_id)) [
      | inl its ↦ let late = young.0 (ground arith) in omega (arith, late, cov.0, begun)
      | inr other ↦ young_project today now most row projects begun (ground arith) cov.1 young.1
    ]

young_day :
    (today : ℕ) (now : ℕ → ℕ) (most : ℕ) (row : Row) (listings : List Listing)
    → ((org : ℕ) → today * day_length ≤ now org)
    → is_listed listings row ≡ true
    → Covered most listings
    → All
        (ForProject row (λ l p. now l.org_id ≤ row.received_at + p.retention_days * day_length))
        listings
    → today ≤ row.received_at / day_length + most
young_day today now most row [] begun listed cov young = cc
young_day today now most row (l ∷ listings) begun listed cov young =
    elim (Bool-cases
      (l.org_id == row.org_id && any (λ (p : Project). p.id == row.project_id) l.projects)) [
        | inl its ↦
            young_project today (now l.org_id) most row l.projects (begun l.org_id) (ground arith)
              cov.0 (young.0 (ground arith))
        | inr other ↦ young_day today now most row listings begun (ground arith) cov.1 young.1
      ]

-- After the job, no event is left whose project's retention ended before today, and every event that
-- is still in the retention window of its project is there as before: of any test that only such
-- events pass, the events that pass it are the same, in the same order. The partitions are named for
-- their days and hold rows of their days, the calendar reaches back far enough, and no organisation's
-- session begins before today does.
pub enforce_retention-window :
    (c : Calendar) (today : ℕ) (now : ℕ → ℕ) (listings : List Listing) (ps : List Partition)
    (q : Row → Bool)
    → IsCalendar c
    → All (IsDaily c) ps
    → global_max_of listings ≤ today
    → ((org : ℕ) → today * day_length ≤ now org)
    → ((row : Row) → q row ≡ true → InWindow now listings row)
    → (after : List Partition) × (enforce_retention c today now listings ps ≡ some after)
      × All (Reached today listings) (rows_of after)
      × (keep_if q (rows_of after) ≡ keep_if q (rows_of ps))
enforce_retention-window c today now listings ps q k daily reach begun within =
    let (after, ran, left) = enforce_retention_lem c today now listings ps k daily reach in
    (
      after,
      ran,
      rw left (
          keep_if_holds (Reached today listings) (is_retained today now listings) (rows_of ps)
            (λ row h. reached today now most row listings begun (ground arith) cov (ground arith))),
      ap (keep_if q) left
          ∙ keep_if-keep_if q (is_retained today now listings) (rows_of ps)
          ∙ keep_if-same _ q (rows_of ps) (λ row. same row (Bool-cases (q row))),
    )
  where
    most : ℕ
    most = global_max_of listings

    cov : Covered most listings
    cov = covered most listings (fold_lem (all_retention_days listings) 90)

    same :
        (row : Row)
        → (q row ≡ true) ⊎ (q row ≡ false)
        → (is_retained today now listings row && q row) ≡ q row
    same row (inl hit) =
        let (listed, young) = within row hit in
        let day = young_day today now most row listings begun listed cov young in
        let all_kept = kept_by_all now most row listings young in
        rw (hit, all_kept) (ground (arith, day))
    same row (inr miss) = rw miss (ground arith)
