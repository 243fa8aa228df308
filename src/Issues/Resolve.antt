-- ===== src/Issues/Resolve.antt =====
-- A resolution by server/app/issues.py and the events that server/app/jobs/process_event.py stores
-- after it.
use crashlens.Base.{
  ℕ, ◌+◌, ◌≡◌, ◌≢◌, refl, ◌∙◌, String, Bool, true, false, Option, none, some, List, [], ◌∷◌, ◌++◌,
  any, find_if, find_if-All, find_if-holds, found_of_any, update_where, ◌==◌, nat_eq, string_eq,
  eq_iff, arith, Bool-cases, inl, inr,
}
use crashlens.Store.{
  resolved, Issue, Release, Tenant, is_issue, is_release, has_fingerprint, has_project,
}
use crashlens.Store.Coherence.{Apart, IsCoherent}
use crashlens.Event.Process.{store_event, decide_regression, alert_job, stored}
use crashlens.Event.Rows.{Prepared, Columns, prior_issue, upsert_release, release_created_at}
use crashlens.Event.Process.Regression.{decide_regression_iff, signal_lem}
use crashlens.Issues.Actions.{resolve, apply_action, set_issue_status, latest_release}

-- The fingerprint of an issue finds it after an action on it.
acted_on :
    (project : String) (id : ℕ) (f : Issue → Issue) (issues : List Issue) (i : Issue)
    → ((j : Issue) → ((f j).project ≡ j.project) × ((f j).fingerprint ≡ j.fingerprint))
    → Apart issues
    → find_if (is_issue project id) issues ≡ some i
    → find_if (has_fingerprint project i.fingerprint) (update_where (is_issue project id) f issues)
      ≡ some (f i)
unfolding update_where
acted_on project id f [] i same apart found = cc
acted_on project id f (x ∷ issues) i same apart found = elim (Bool-cases (is_issue project id x)) [
  | inl hit ↦
      let e : x ≡ i = ground arith in
      let mine : has_fingerprint project i.fingerprint (f x) ≡ true = ground (
        arith,
        same x,
        e,
        eq_iff x.project project,
        eq_iff (f x).project project,
        eq_iff (f x).fingerprint i.fingerprint,
      ) in
      rw (hit, mine, e) refl
  | inr miss ↦
      let there : find_if (is_issue project id) issues ≡ some i = ground arith in
      let differs = find_if-All _ (is_issue project id) issues i apart.0 there in
      let holds = find_if-holds (is_issue project id) issues i there in
      let other : has_fingerprint project i.fingerprint x ≡ false = ground (
        arith,
        eq_iff x.project project,
        eq_iff x.fingerprint i.fingerprint,
        eq_iff i.project project,
        eq_iff i.project x.project,
        eq_iff i.fingerprint x.fingerprint,
      ) in
      rw (miss, other) (acted_on project id f issues i same apart.1 there)
]

any_last :
    (p : Release → Bool) (releases : List Release) (r : Release)
    → p r ≡ true
    → any p (releases ++ r ∷ []) ≡ true
any_last p [] r h = rw h refl
any_last p (s ∷ releases) r h = ground (arith, any_last p releases r h)

-- A release has a time once it is recorded.
recorded :
    (now : ℕ) (project version : String) (releases : List Release)
    → (at : ℕ) × (release_created_at project
          (some version)
          (upsert_release now project version releases)
        ≡ some at)
unfolding upsert_release
recorded now project version releases =
    elim (Bool-cases (any (is_release project version) releases)) [
      | inl old ↦
          let (r, e) = found_of_any (is_release project version) releases old in
          (r.created_at, rw (old, e) refl)
      | inr new ↦
          let added : Release = record { project = project; version = version; created_at = now } in
          let last =
            any_last (is_release project version) releases added
              (ground (arith, eq_iff project project, eq_iff version version)) in
          let (r, e) = found_of_any (is_release project version) (releases ++ added ∷ []) last in
          (r.created_at, rw (new, e) refl)
    ]

-- Both releases being the recorded one, the event is a straggler.
same_release :
    (now : ℕ) (project version : String) (releases : List Release)
    → version ≢ ""
    → let at =
        release_created_at project (some version) (upsert_release now project version releases) in
      decide_regression (some version) (some version) at at ≡ false
same_release now project version releases named =
    let (at, e) = recorded now project version releases in
    (decide_regression_iff (some version) (some version) _ _).1 (record {
      fix_version = version;
      event_version = version;
      event_time = at;
      fix_time = at;
      fix_known = refl;
      fix_named = named;
      event_known = refl;
      event_named = named;
      event_seen = e;
      fix_seen = e;
      not_newer = omega arith;
    })

-- An event of the fix release leaves a resolved issue as it is.
resolved_stays :
    (now seen_at : ℕ) (project version : String) (p : Prepared) (c : Columns) (t : Tenant)
    (j : Issue)
    → prior_issue t project p.fingerprint ≡ some j
    → j.status ≡ resolved
    → j.resolved_in_release ≡ some version
    → version ≢ ""
    → c.release ≡ some version
    → (store_event now seen_at project p c t).0 ≡ record {
      issue_id = j.id;
      status = resolved;
      created = false;
      regressed = false;
      regressed_in_release = none;
      event_count = j.event_count + 1;
    }
resolved_stays now seen_at project version p c t j prior status fix named release =
    let blank : version == "" ≡ false = ground (arith, eq_iff version "") in
    let quiet = same_release now project version t.releases named in
    signal_lem now seen_at project p c t j prior ∙ rw (fix, release, status, blank, quiet) refl

set_issue_status-rows :
    (later : String → String → Bool) (project : String) (id : ℕ) (actor : Option String)
    (t : Tenant) (i : Issue) (r : Release)
    → has_project t project ≡ true
    → find_if (is_issue project id) t.issues ≡ some i
    → latest_release later project t.releases ≡ some r
    → (set_issue_status later project id resolve actor t).0.issues
      ≡ update_where (is_issue project id) (apply_action resolve (some r.version)) t.issues
unfolding set_issue_status
set_issue_status-rows later project id actor t i r there found latest =
    let holds = find_if-holds (is_issue project id) t.issues i found in
    let same : i.id ≡ id = ground arith in rw (there, found, latest, same) refl

-- Once an issue is resolved, which records the project's latest release as its fix, an event of that
-- very release is counted and leaves the issue resolved, without an alert. The rows are coherent, the
-- project and the issue are there, and the latest release has a name that is not empty.
pub set_issue_status-store_event :
    (later : String → String → Bool) (project : String) (id : ℕ) (actor : Option String)
    (t : Tenant) (i : Issue) (r : Release) (now seen_at : ℕ) (p : Prepared) (c : Columns)
    → IsCoherent t
    → has_project t project ≡ true
    → find_if (is_issue project id) t.issues ≡ some i
    → latest_release later project t.releases ≡ some r
    → r.version ≢ ""
    → p.fingerprint ≡ i.fingerprint
    → c.release ≡ some r.version
    → let t' = (set_issue_status later project id resolve actor t).0 in
      let signal = (store_event now seen_at project p c t').0 in
      (signal ≡ record {
        issue_id = i.id;
        status = resolved;
        created = false;
        regressed = false;
        regressed_in_release = none;
        event_count = i.event_count + 1;
      })
      × (alert_job (stored signal) ≡ none)
unfolding apply_action alert_job
set_issue_status-store_event later project id actor t i r now seen_at p c v there found latest named
      fp release =
    let t' = (set_issue_status later project id resolve actor t).0 in
    let f = apply_action resolve (some r.version) in
    let prior : prior_issue t' project p.fingerprint ≡ some (f i) =
      rw (fp, set_issue_status-rows later project id actor t i r there found latest)
        (acted_on project id f t.issues i (λ j. (refl, refl)) v.apart found) in
    let quiet =
      resolved_stays now seen_at project r.version p c t' (f i) prior refl refl named release in
    (quiet, rw quiet refl)
