-- ===== src/Event/Process/Regression.antt =====
-- When an event brings a resolved issue back.
use crashlens.Base.{
  ℕ, ◌+◌, ◌≤◌, ◌≡◌, ◌≢◌, ◌↔◌, refl, String, Bool, true, false, Option, none, some, List, ◌&&◌, ◌⊎◌,
  inl, inr, nat_eq, string_eq, eq_iff, Bool-cases, if◌then◌else◌, arith,
}
use crashlens.Store.{
  Status, unresolved, resolved, ignored, regressed, is_status, Issue, Release, Tenant,
}
use crashlens.Event.Process.{
  decide_regression, store_event, alert_job, stored, Signal, new_kind, regression_kind,
}
use crashlens.Event.Rows.{
  record_release, release_created_at, version_of, bump_issue, flips, Columns, Prepared, prior_issue,
}

-- The one case in which an event does not bring a resolved issue back: the fix and the event name
-- their releases, both releases were seen, and the event's was not seen after the fix's.
pub record IsStraggler (fix event : Option String) (event_at fix_at : Option ℕ) : Type 0 where
  pub fix_version : String
  pub event_version : String
  pub event_time : ℕ
  pub fix_time : ℕ
  pub fix_known : fix ≡ some fix_version
  pub fix_named : fix_version ≢ ""
  pub event_known : event ≡ some event_version
  pub event_named : event_version ≢ ""
  pub event_seen : event_at ≡ some event_time
  pub fix_seen : fix_at ≡ some fix_time
  pub not_newer : event_time ≤ fix_time

straggler :
    (fix event : Option String) (event_at fix_at : Option ℕ)
    → decide_regression fix event event_at fix_at ≡ false
    → IsStraggler fix event event_at fix_at
unfolding decide_regression
straggler (some v) (some w) (some a) (some b) h = record {
  fix_version = v;
  event_version = w;
  event_time = a;
  fix_time = b;
  fix_known = refl;
  fix_named = ground (arith, eq_iff v "");
  event_known = refl;
  event_named = ground (arith, eq_iff w "");
  event_seen = refl;
  fix_seen = refl;
  not_newer = ground arith;
}
straggler none event event_at fix_at h = absurd (ground arith)
straggler (some v) none event_at fix_at h = absurd (ground arith)
straggler (some v) (some w) none fix_at h = absurd (ground arith)
straggler (some v) (some w) (some a) none h = absurd (ground arith)

not_regressed :
    (fix event : Option String) (event_at fix_at : Option ℕ)
    → IsStraggler fix event event_at fix_at
    → decide_regression fix event event_at fix_at ≡ false
unfolding decide_regression
not_regressed fix event event_at fix_at s =
    ground (arith, eq_iff s.fix_version "", eq_iff s.event_version "")

-- An event leaves a resolved issue resolved exactly when it is a straggler of a release that was
-- first seen no later than that of the fix.
pub decide_regression_iff :
    (fix event : Option String) (event_at fix_at : Option ℕ)
    → (decide_regression fix event event_at fix_at ≡ false) ↔ IsStraggler fix event event_at fix_at
decide_regression_iff fix event event_at fix_at =
    (straggler fix event event_at fix_at, not_regressed fix event event_at fix_at)

came_back :
    (s : Status) (b : Bool)
    → (is_status s resolved
        && is_status (if is_status s resolved && b then regressed else s) regressed)
      ≡ (is_status s resolved && b)
came_back s b = ground arith

status_of : (s : Status) → is_status s resolved ≡ true → s ≡ resolved
status_of resolved h = refl
status_of unresolved h = cc
status_of ignored h = cc
status_of regressed h = cc

module _ (now seen_at : ℕ) (project : String) (p : Prepared) (c : Columns) (t : Tenant) where
  -- The releases once the event's own is recorded.
  abbrev pub releases_then : List Release
  releases_then = record_release now project (version_of c.release) t.releases

  abbrev pub IsStragglerOf : Issue → Type 0
  IsStragglerOf i =
      IsStraggler i.resolved_in_release (version_of c.release)
        (release_created_at project (version_of c.release) releases_then)
        (release_created_at project (version_of i.resolved_in_release) releases_then)

  pub signal_lem :
      (i : Issue)
      → prior_issue t project p.fingerprint ≡ some i
      → let b =
          decide_regression i.resolved_in_release
            (version_of c.release)
            (release_created_at project (version_of c.release) releases_then)
            (release_created_at project (version_of i.resolved_in_release) releases_then) in
        (store_event now seen_at project p c t).0 ≡ record {
          issue_id = i.id;
          status = if flips b i then regressed else i.status;
          created = false;
          regressed = flips b i;
          regressed_in_release = if flips b i then version_of c.release else none;
          event_count = i.event_count + 1;
        }
  unfolding store_event bump_issue
  signal_lem i e =
      let b =
        decide_regression i.resolved_in_release (version_of c.release)
          (release_created_at project (version_of c.release) releases_then)
          (release_created_at project (version_of i.resolved_in_release) releases_then) in
      rw e (rw (came_back i.status b) refl)

  new_signal_lem :
      prior_issue t project p.fingerprint ≡ none
      → (store_event now seen_at project p c t).0 ≡ record {
        issue_id = t.next_id;
        status = unresolved;
        created = true;
        regressed = false;
        regressed_in_release = none;
        event_count = 1;
      }
  unfolding store_event bump_issue
  new_signal_lem e = rw e refl

  -- What the team is told, and what the issue is then: of a new issue, of a known one that the event
  -- leaves as it is, and of a resolved one that it brings back.
  abbrev pub Told : Option Issue → Signal → Type 0
  Told none s =
      (alert_job (stored s)
        ≡ some (record { issue_id = t.next_id; kind = new_kind; release = none }))
      × (s.status ≡ unresolved)
      × (s.event_count ≡ 1)
  Told (some i) s =
      (s.event_count ≡ i.event_count + 1)
      × ((((i.status ≢ resolved) ⊎ IsStragglerOf i)
            × (alert_job (stored s) ≡ none)
            × (s.status ≡ i.status))
          ⊎ ((i.status ≡ resolved)
              × (¬ IsStragglerOf i)
              × (alert_job (stored s)
                  ≡ some (record {
                    issue_id = i.id;
                    kind = regression_kind;
                    release = version_of c.release;
                  }))
              × (s.status ≡ regressed)))

  -- An event of a new issue alerts the team of a new issue, which is unresolved and counts one event.
  -- An event of a known issue is counted. It keeps quiet and leaves the status as it is exactly when
  -- the issue was not resolved or the event is a straggler; else it alerts the team of a regression,
  -- with the release of the event, and the issue is regressed.
  pub alert_job-store_event :
      Told (prior_issue t project p.fingerprint) (store_event now seen_at project p c t).0
  unfolding alert_job
  alert_job-store_event = go (prior_issue t project p.fingerprint) refl
    where
      known :
          (i : Issue) (b : Bool)
          → (b ≡ false) ↔ IsStragglerOf i
          → Told (some i) (record {
            issue_id = i.id;
            status = if flips b i then regressed else i.status;
            created = false;
            regressed = flips b i;
            regressed_in_release = if flips b i then version_of c.release else none;
            event_count = i.event_count + 1;
          })
      known i b h = elim (Bool-cases (is_status i.status resolved)) [
        | inl was ↦ elim (Bool-cases b) [
          | inl back ↦
              rw (was, back)
                (refl, inr (status_of i.status was, λ x. absurd (cc (h.1 x, back)), refl, refl))
          | inr straggles ↦ rw (was, straggles) (refl, inl (inr (h.0 straggles), refl, refl))
        ]
        | inr open_still ↦
            rw open_still (refl, inl (inl (λ e. absurd (cc (rw e at open_still))), refl, refl))
      ]

      go :
          (o : Option Issue)
          → prior_issue t project p.fingerprint ≡ o
          → Told o (store_event now seen_at project p c t).0
      go none e = rw (new_signal_lem e) (refl, refl, refl)
      go (some i) e =
          let version = version_of c.release in
          let event_at = release_created_at project version releases_then in
          let fix_at =
            release_created_at project (version_of i.resolved_in_release) releases_then in
          rw (signal_lem i e) (
            known i (decide_regression i.resolved_in_release version event_at fix_at)
              (decide_regression_iff i.resolved_in_release version event_at fix_at))
