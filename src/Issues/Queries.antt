-- ===== src/Issues/Queries.antt =====
-- server/app/issues.py, the reading half: the filters, `list_issues` and `get_issue`. PostgreSQL's
-- `ILIKE` and the table of users are parameters.
use Prim.Native.String
use mathlib.Core.Option
use crashlens.Base.{
  ℕ, zero, suc, ◌+◌, ◌-◌, ◌*◌, ◌/◌, min, String, Bool, true, ◌&&◌, ◌||◌, Option, none, some, List,
  [], ◌∷◌, find_if, keep_if, count_if, length, take, drop, leb, ltb, ◌==◌, nat_eq, string_eq,
  if◌then◌else◌,
}
use crashlens.Json.Numbers.{ℤ, pos, negsuc}
use crashlens.Store.{
  Status, unresolved, resolved, ignored, regressed, is_status, Issue, Event, Tenant, is_issue,
  has_project,
}

abbrev pub default_per_page : ℕ
default_per_page = 25

abbrev pub max_per_page : ℕ
max_per_page = 100

abbrev pub occurrence_window_days : ℕ
occurrence_window_days = 14

abbrev pub recent_events_limit : ℕ
recent_events_limit = 25

-- A filter tab: one status, or all.
pub data Filter : Type 0 where
  only : Status → Filter
  everything : Filter

pub data Sort : Type 0 where
  by_last_seen by_first_seen by_count : Sort

-- none: the ValueError of an unknown word.
unfoldable pub normalize_status_filter : Option String → Option Filter
normalize_status_filter none = some (only unresolved)
normalize_status_filter (some value) =
    if value == ""
    then some (only unresolved)
    else if value == "unresolved"
    then some (only unresolved)
    else if value == "resolved"
    then some (only resolved)
    else if value == "ignored"
    then some (only ignored)
    else if value == "regressed"
    then some (only regressed)
    else if value == "all"
    then some everything
    else none

unfoldable pub normalize_sort : Option String → Option Sort
normalize_sort none = some by_last_seen
normalize_sort (some value) =
    if value == ""
    then some by_last_seen
    else if value == "last_seen"
    then some by_last_seen
    else if value == "first_seen"
    then some by_first_seen
    else if value == "count"
    then some by_count
    else none

unfoldable pub clamp_page : Option ℤ → ℕ
clamp_page none = 1
clamp_page (some (negsuc n)) = 1
clamp_page (some (pos n)) = if ltb n 1 then 1 else n

unfoldable pub clamp_per_page : Option ℤ → ℕ
clamp_per_page none = default_per_page
clamp_per_page (some (negsuc n)) = default_per_page
clamp_per_page (some (pos n)) = if ltb n 1 then default_per_page else min n max_per_page

-- Days from `start` on, each with its count.
unfoldable pub fill_from : (ℕ → ℕ) → ℕ → ℕ → List (ℕ × ℕ)
fill_from counts_by_day start zero = []
fill_from counts_by_day start (suc days) =
    (start, counts_by_day start) ∷ fill_from counts_by_day (start + 1) days

-- `counts_by_day` is 0 on a day that the dict lacks.
unfoldable pub zero_fill_occurrences : (ℕ → ℕ) → ℕ → ℕ → List (ℕ × ℕ)
unfolding fill_from
zero_fill_occurrences counts_by_day today days =
    let start = today - (days - 1) in fill_from counts_by_day start days

abbrev pub passes : Filter → Issue → Bool
passes (only s) issue = is_status issue.status s
passes everything issue = true

-- `title ILIKE :q` with `%` put round the text; `ilike` is PostgreSQL's. No text means no test.
abbrev pub matches_title : (String → String → Bool) → Option String → Issue → Bool
matches_title ilike none issue = true
matches_title ilike (some q) issue =
    if q == "" then true else ilike issue.title (String.◌++◌ "%" (String.◌++◌ q "%"))

abbrev pub sort_key : Sort → Issue → ℕ
sort_key by_last_seen issue = issue.last_seen
sort_key by_first_seen issue = issue.first_seen
sort_key by_count issue = issue.event_count

-- `ORDER BY key DESC, id DESC`.
abbrev pub comes_first : Sort → Issue → Issue → Bool
comes_first sort a b =
    ltb (sort_key sort b) (sort_key sort a) || sort_key sort a == sort_key sort b && leb b.id a.id

unfoldable pub insert_by : Sort → Issue → List Issue → List Issue
insert_by sort a [] = a ∷ []
insert_by sort a (b ∷ issues) =
    let after = b ∷ insert_by sort a issues in
    if comes_first sort a b then a ∷ b ∷ issues else after

unfoldable pub order_by : Sort → List Issue → List Issue
unfolding insert_by
order_by sort [] = []
order_by sort (a ∷ issues) = insert_by sort a (order_by sort issues)

pub record Page : Type 0 where
  pub issues : List Issue
  pub total : ℕ
  pub page : ℕ
  pub per_page : ℕ

abbrev pub selected :
    (String → String → Bool) → String → Filter → Option String → Tenant → List Issue
selected ilike project status_filter q t =
    keep_if (λ i. i.project == project && (passes status_filter i && matches_title ilike q i))
      t.issues

unfoldable pub list_issues :
    (String → String → Bool) → String → Filter → Option String → Sort → ℕ → ℕ → Tenant → Option Page
unfolding order_by
list_issues ilike project status_filter q sort page per_page t =
    let found = selected ilike project status_filter q t in
    let offset = (page - 1) * per_page in
    if has_project t project
    then some (record {
      issues = take per_page (drop offset (order_by sort found));
      total = length found;
      page = page;
      per_page = per_page;
    })
    else none

abbrev pub day_of : ℕ → ℕ
day_of microseconds = microseconds / 86_400_000_000

abbrev pub of_issue : String → ℕ → Event → Bool
of_issue project id e = e.project == project && e.issue_id == id

-- The grouped query: how many events of the issue fall on a day of the window.
abbrev pub occurrences_on : String → ℕ → ℕ → Tenant → ℕ → ℕ
occurrences_on project id window_start t day =
    count_if
      (λ e.
        of_issue project id e && (leb window_start e.received_at && day_of e.received_at == day))
      t.events

-- Newest first; of two events of one time PostgreSQL may put either first.
unfoldable pub insert_event : Event → List Event → List Event
insert_event e [] = e ∷ []
insert_event e (f ∷ events) =
    let after = f ∷ insert_event e events in
    if leb f.received_at e.received_at then e ∷ f ∷ events else after

unfoldable pub newest_first : List Event → List Event
unfolding insert_event
newest_first [] = []
newest_first (e ∷ events) = insert_event e (newest_first events)

pub record Detail : Type 0 where
  pub issue : Issue
  pub latest_event : Option Event
  pub recent_events : List Event
  pub occurrences : List (ℕ × ℕ)
  pub assigned_to_email : Option String

abbrev pub first_of : List Event → Option Event
first_of [] = none
first_of (e ∷ events) = some e

abbrev pub detail_of : (String → Option String) → ℕ → Tenant → String → Issue → Detail
detail_of email_of now t project issue =
    let stored = newest_first (keep_if (of_issue project issue.id) t.events) in
    let today = day_of now in
    let window_start = (today - (occurrence_window_days - 1)) * 86_400_000_000 in
    record {
      issue = issue;
      latest_event = first_of stored;
      recent_events = take recent_events_limit stored;
      occurrences =
          zero_fill_occurrences (occurrences_on project issue.id window_start t) today
            occurrence_window_days;
      assigned_to_email = elim issue.assigned_to [ none ↦ none | some user ↦ email_of user ];
    }

unfoldable pub get_issue : (String → Option String) → ℕ → String → ℕ → Tenant → Option Detail
unfolding newest_first zero_fill_occurrences
get_issue email_of now project id t =
    if has_project t project
    then Option.map (detail_of email_of now t project) (find_if (is_issue project id) t.issues)
    else none
