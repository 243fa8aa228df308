-- ===== src/Issues/Tests.antt =====
-- Witnesses and runs of the issue services.
use crashlens.Base.{
  false, ℕ, ◌+◌, ◌*◌, ◌≡◌, refl, String, Bool, true, Option, none, some, [], ◌∷◌, take, length,
  count_if, arith, eq_iff, nat_eq, string_eq,
}
use crashlens.Json.{obj}
use crashlens.Store.{Tenant, resolved}
use crashlens.Store.Coherence.{IsCoherent}
use crashlens.Issues.Queries.{
  Detail, detail_of, everything, by_count, order_by, selected, get_issue, occurrence_window_days,
}
use crashlens.Issues.Actions.{resolve, set_issue_status, latest_release}
use crashlens.Issues.Pages.{first_pages, first_pages_lem}
use crashlens.Issues.Occurrences.{sum_counts, is_recent, get_issue-occurrences}
use crashlens.Issues.History.{start, then, job, set_status, reachable-IsCoherent}
use crashlens.Event.Process.{process_event, store_event, alert_job, stored}
use crashlens.Event.Rows.{Columns}
use crashlens.Issues.Resolve.{set_issue_status-store_event}
use crashlens.Samples.{
  prepared, columns, rows-IsCoherent, plain_runtime, no_maps, envelope, rows, known,
}

abbrev same_text : String → String → Bool
same_text s t = true

abbrev no_email : String → Option String
no_email user = none

first_pages_lem_example :
    first_pages same_text "p" everything none by_count 2 1 rows
    ≡ take (2 * 1) (order_by by_count (selected same_text "p" everything none rows))
first_pages_lem_example = first_pages_lem same_text "p" everything none by_count 2 1 rows refl

-- Noon of the fourteenth day.
abbrev noon : ℕ
noon = 13 * 86_400_000_000 + 43_200_000_000

abbrev chart : Detail
chart = detail_of no_email noon rows "p" known

chart_found : get_issue no_email noon "p" 0 rows ≡ some chart
unfolding get_issue
chart_found = refl

get_issue-occurrences_example :
    (length chart.occurrences ≡ occurrence_window_days)
    × (sum_counts chart.occurrences ≡ count_if (is_recent "p" 0 noon) rows.events)
get_issue-occurrences_example =
    get_issue-occurrences no_email noon "p" 0 rows chart (omega arith) chart_found

abbrev empty : Tenant
empty = record {
  projects = "p" ∷ [];
  members = [];
  issues = [];
  releases = [];
  events = [];
  comments = [];
  audits = [];
  next_id = 0;
  partitions = (1_209_600_000_000, 1_296_000_000_000) ∷ [];
}

abbrev later : Tenant
later = (process_event plain_runtime no_maps 10 "maps" 9 "o" "p" "now" (obj envelope) empty).1

reachable-IsCoherent_example :
    IsCoherent (set_issue_status same_text "p" 0 resolve (some "u") later).0
reachable-IsCoherent_example =
    reachable-IsCoherent plain_runtime no_maps "maps" "o" same_text no_email
      (set_issue_status same_text "p" 0 resolve (some "u") later).0
      (then later _
        (then empty later (start empty refl refl) (job 10 9 "p" "now" (obj envelope) empty))
        (set_status "p" 0 resolve (some "u") later))

-- The event names the release in which the issue was fixed.
abbrev old_release : Columns
old_release = record columns { release = some "1.0" }

set_issue_status-store_event_example :
    let t = (set_issue_status same_text "p" 0 resolve none rows).0 in
    let signal = (store_event 9 8 "p" prepared old_release t).0 in
    (signal ≡ record {
      issue_id = 0;
      status = resolved;
      created = false;
      regressed = false;
      regressed_in_release = none;
      event_count = 2;
    })
    × (alert_job (stored signal) ≡ none)
unfolding latest_release
set_issue_status-store_event_example =
    set_issue_status-store_event same_text "p" 0 none rows known
      (record { project = "p"; version = "1.0"; created_at = 5 }) 9 8 prepared old_release
      rows-IsCoherent refl refl refl (λ e. ground (arith, eq_iff "1.0" "")) refl refl
