-- ===== src/Issues/Occurrences.antt =====
-- The occurrence chart of server/app/issues.py.
use crashlens.Base.{
  ℕ, zero, suc, ◌+◌, ◌-◌, ◌*◌, ◌≤◌, ◌≡◌, refl, String, Bool, true, false, ◌&&◌, Option, none, some,
  List, [], ◌∷◌, leb, ltb, ◌==◌, nat_eq, string_eq, length, count_if, arith, if◌then◌else◌, subst,
  ◌∙◌, find_if,
}
use mathlib.Core.Option
use crashlens.Store.{Issue, Event, Tenant, has_project, is_issue}
use crashlens.Issues.Queries.{
  Detail, get_issue, detail_of, fill_from, zero_fill_occurrences, occurrences_on, of_issue, day_of,
  occurrence_window_days,
}

-- What the chart shows in total.
abbrev pub sum_counts : List (ℕ × ℕ) → ℕ
sum_counts [] = 0
sum_counts ((day, n) ∷ rest) = n + sum_counts rest

-- The events of an issue from `start` on, over some days.
abbrev pub in_window : String → ℕ → ℕ → ℕ → ℕ → Event → Bool
in_window project id window_start first days e =
    of_issue project id e
    && (leb window_start e.received_at
        && (leb first (day_of e.received_at) && ltb (day_of e.received_at) (first + days)))

split_first :
    (project : String) (id w first days : ℕ) (events : List Event)
    → count_if (in_window project id w first (suc days)) events
      ≡ count_if
          (λ e. of_issue project id e && (leb w e.received_at && day_of e.received_at == first))
          events
        + count_if (in_window project id w (first + 1) days) events
split_first project id w first days [] = refl
split_first project id w first days (e ∷ events) =
    let ih = split_first project id w first days events in ground arith

empty_window :
    (project : String) (id w first : ℕ) (events : List Event)
    → count_if (in_window project id w first 0) events ≡ 0
empty_window project id w first [] = refl
empty_window project id w first (e ∷ events) =
    let ih = empty_window project id w first events in ground arith

sum-fill_from :
    (project : String) (id w first days : ℕ) (t : Tenant)
    → sum_counts (fill_from (occurrences_on project id w t) first days)
      ≡ count_if (in_window project id w first days) t.events
unfolding fill_from
sum-fill_from project id w first zero t = omega (arith, empty_window project id w first t.events)
sum-fill_from project id w first (suc days) t = ground (
  arith,
  sum-fill_from project id w (first + 1) days t,
  split_first project id w first days t.events,
)

length-fill_from : (f : ℕ → ℕ) (first days : ℕ) → length (fill_from f first days) ≡ days
unfolding fill_from
length-fill_from f first zero = refl
length-fill_from f first (suc days) = omega (arith, length-fill_from f (first + 1) days)

-- The events of an issue on the `occurrence_window_days` days that end today.
abbrev pub is_recent : String → ℕ → ℕ → Event → Bool
is_recent project id now e =
    of_issue project id e
    && (leb (day_of now) (day_of e.received_at + 13) && leb (day_of e.received_at) (day_of now))

same_window :
    (project : String) (id now : ℕ) (events : List Event)
    → 13 ≤ day_of now
    → count_if
        (in_window project id ((day_of now - 13) * 86_400_000_000) (day_of now - 13) 14)
        events
      ≡ count_if (is_recent project id now) events
same_window project id now [] h = refl
same_window project id now (e ∷ events) h =
    let ih = same_window project id now events h in ground arith

abbrev Charted : String → ℕ → Tenant → Detail → Type 0
Charted project now t d =
    (length d.occurrences ≡ occurrence_window_days)
    × (sum_counts d.occurrences ≡ count_if (is_recent project d.issue.id now) t.events)

detail_of-Charted :
    (email_of : String → Option String) (now : ℕ) (project : String) (t : Tenant) (issue : Issue)
    → 13 ≤ day_of now
    → Charted project now t (detail_of email_of now t project issue)
unfolding zero_fill_occurrences
detail_of-Charted email_of now project t issue h =
    let first = day_of now - 13 in
    let window_start = first * 86_400_000_000 in
    (
      length-fill_from (occurrences_on project issue.id window_start t) first 14,
      sum-fill_from project issue.id window_start first 14 t
          ∙ same_window project issue.id now t.events h,
    )

found-Charted :
    (email_of : String → Option String) (now : ℕ) (project : String) (t : Tenant) (d : Detail)
    (b : Bool) (o : Option Issue)
    → 13 ≤ day_of now
    → (if b then Option.map (detail_of email_of now t project) o else none) ≡ some d
    → Charted project now t d
found-Charted email_of now project t d false o h e = cc
found-Charted email_of now project t d true none h e = cc
found-Charted email_of now project t d true (some issue) h e =
    let same : detail_of email_of now t project issue ≡ d = cc in
    subst (Charted project now t) same (detail_of-Charted email_of now project t issue h)

-- From the 14th day of the calendar on, the chart of a found issue has exactly 14 entries, and its
-- counts add up to the number of the issue's stored events of the 14 days that end today.
pub get_issue-occurrences :
    (email_of : String → Option String) (now : ℕ) (project : String) (id : ℕ) (t : Tenant)
    (d : Detail)
    → 13 ≤ day_of now
    → get_issue email_of now project id t ≡ some d
    → (length d.occurrences ≡ occurrence_window_days)
      × (sum_counts d.occurrences ≡ count_if (is_recent project d.issue.id now) t.events)
unfolding get_issue
get_issue-occurrences email_of now project id t d h e =
    found-Charted email_of now project t d (has_project t project)
      (find_if (is_issue project id) t.issues) h e
