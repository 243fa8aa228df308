-- ===== src/Issues/History.antt =====
-- The rows of an organisation over time: the jobs of server/app/jobs/process_event.py and the requests
-- of server/app/issues.py, each in a transaction of its own, in any order. The retention job, which
-- removes old events, is not among the steps.
use crashlens.Base.{ℕ, ◌≡◌, String, Bool, Option, []}
use crashlens.Json.{Json}
use crashlens.Runtime.{Runtime}
use crashlens.SourceMap.Symbolicate.{Disk}
use crashlens.Store.{Tenant}
use crashlens.Store.Coherence.{IsCoherent}
use crashlens.Event.Process.{process_event}
use crashlens.Event.Process.Counts.{process_event-IsCoherent}
use crashlens.Issues.Actions.{Action, set_issue_status, assign_issue, add_comment, delete_issue}
use crashlens.Issues.Status.{
  set_issue_status-IsCoherent, assign_issue-IsCoherent, add_comment-IsCoherent,
  delete_issue-IsCoherent,
}

module _ (rt : Runtime) (disk : Disk) (maps_dir org : String) (later : String → String → Bool)
    (email_of : String → Option String) where
  pub data Step : Tenant → Tenant → Type 0 where
    job :
        (depth now : ℕ) (project received_at : String) (envelope : Json) (t : Tenant)
        → Step t (process_event rt disk depth maps_dir now org project received_at envelope t).1
    set_status :
        (project : String) (id : ℕ) (action : Action) (actor : Option String) (t : Tenant)
        → Step t (set_issue_status later project id action actor t).0
    assign :
        (now : ℕ) (project : String) (id : ℕ) (user actor : Option String) (t : Tenant)
        → Step t (assign_issue email_of now project id user actor t).0
    comment :
        (now : ℕ) (project : String) (id : ℕ) (author body : String) (t : Tenant)
        → Step t (add_comment email_of now project id author body t).0
    delete :
        (project : String) (id : ℕ) (actor : Option String) (t : Tenant)
        → Step t (delete_issue project id actor t).0

  -- From an organisation without issues and events.
  pub data Reachable : Tenant → Type 0 where
    start : (t : Tenant) → t.issues ≡ [] → t.events ≡ [] → Reachable t
    then : (t u : Tenant) → Reachable t → Step t u → Reachable u

  step-IsCoherent : (t u : Tenant) → Step t u → IsCoherent t → IsCoherent u
  step-IsCoherent _ _ (job depth now project received_at envelope t) v =
      process_event-IsCoherent rt disk depth maps_dir now org project received_at envelope t v
  step-IsCoherent _ _ (set_status project id action actor t) v =
      set_issue_status-IsCoherent later project id action actor t v
  step-IsCoherent _ _ (assign now project id user actor t) v =
      assign_issue-IsCoherent email_of now project id user actor t v
  step-IsCoherent _ _ (comment now project id author body t) v =
      add_comment-IsCoherent email_of now project id author body t v
  step-IsCoherent _ _ (delete project id actor t) v = delete_issue-IsCoherent project id actor t v

  -- However event jobs and requests that change an issue's status, assign it, comment on it or delete
  -- it follow one another, from an organisation without issues and events on, the rows are coherent:
  -- every issue counts exactly the stored events that belong to it, ids and fingerprints are unique,
  -- and only regressed issues have a came-back-in release.
  pub reachable-IsCoherent : (t : Tenant) → Reachable t → IsCoherent t
  reachable-IsCoherent _ (start t no_issues no_events) = record {
    apart = rw no_issues tt;
    counted = rw no_issues tt;
    old_issues = rw no_issues tt;
    old_events = rw no_events tt;
    marks = rw no_issues tt;
  }
  reachable-IsCoherent _ (then t u before step) =
      step-IsCoherent t u step (reachable-IsCoherent t before)
