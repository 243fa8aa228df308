-- ===== src/Event/Process/Counts.antt =====
-- Storing an event keeps the rows coherent.
use crashlens.Base.{
  ℕ, ◌+◌, ◌≡◌, ◌≢◌, inl, inr, refl, String, Bool, true, false, Option, none, some, List, [], ◌∷◌,
  ◌++◌, All, All-imp, All-append, All-update_where, count_if, count_if-append, any, find_if-none,
  find_if-All, All-zip, count_if-none, ◌==◌, nat_eq, string_eq, eq_iff, arith, Bool-cases,
  Option-cases, if◌then◌else◌,
}
use crashlens.Runtime.{Runtime}
use crashlens.SourceMap.Symbolicate.{Disk}
use crashlens.Json.{Json}
use crashlens.Store.{Issue, Event, Tenant, has_fingerprint, has_project, has_partition, is_event}
use crashlens.Event.Fingerprint.{coerce_timestamp}
use crashlens.Store.Coherence.{
  Apart, update_where-Apart, of_issue, IsCoherent, has_fingerprint-Only,
}
use crashlens.Event.Process.{
  store_event, should_regress_on, process_event, prepare, transact, transact_id, store_columns,
  other_columns, uuid_column,
}
use crashlens.Event.Rows.{
  Prepared, Columns, bump_issue, new_issue, upsert_at, prior_issue, event_row, version_of,
  record_release,
}

-- One more row at the end of the events.
count-append_row :
    (id : ℕ) (events : List Event) (e : Event)
    → count_if (of_issue id) (events ++ e ∷ [])
      ≡ count_if (of_issue id) events + (if e.issue_id == id then 1 else 0)
count-append_row id events e = omega (arith, count_if-append (of_issue id) events (e ∷ []))

append-Apart :
    (issues : List Issue) (n : Issue)
    → Apart issues
    → All (λ i. (i.id ≢ n.id) × (has_fingerprint i.project i.fingerprint n ≡ false)) issues
    → Apart (issues ++ n ∷ [])
append-Apart [] n apart new = (tt, tt)
append-Apart (i ∷ issues) n apart new =
    (All-append _ issues (n ∷ []) apart.0 (new.0, tt), append-Apart issues n apart.1 new.1)

module _ (now seen_at : ℕ) (project : String) (p : Prepared) (c : Columns) (b : Bool) where
  -- The two cases of the upsert, with the event row that follows it.
  abbrev stored_at : Option Issue → Tenant → Tenant
  stored_at o t =
      let (row, t') = upsert_at o t project p c seen_at b in
      record t' { events = t'.events ++ event_row project row.issue.id p c seen_at ∷ [] }

  known-IsCoherent :
      (t : Tenant) (old : Issue)
      → prior_issue t project p.fingerprint ≡ some old
      → IsCoherent t
      → IsCoherent (stored_at (some old) t)
  unfolding bump_issue
  known-IsCoherent t old e v =
      let only = has_fingerprint-Only project p.fingerprint t.issues old v.apart e in
      let row = event_row project old.id p c seen_at in
      record {
        apart = update_where-Apart _ _ t.issues (λ i. (refl, refl, refl)) v.apart;
        counted =
            All-update_where _ _ _ _ (λ i h m. ground (arith, count-append_row i.id t.events row))
              (λ i h m. ground (arith, count-append_row i.id t.events row)) t.issues
              (All-zip _ _ t.issues v.counted only);
        old_issues = All-update_where _ _ _ _ (λ i h _. h) (λ i h _. h) t.issues v.old_issues;
        old_events =
            All-append _ t.events (row ∷ []) v.old_events
              (find_if-All _ _ t.issues old v.old_issues e, tt);
        marks = All-update_where _ _ _ _ (λ i h _. ground arith) (λ i h _. h) t.issues v.marks;
      }

  fresh_id : (t : Tenant) → IsCoherent t → count_if (of_issue t.next_id) t.events ≡ 0
  fresh_id t v = count_if-none _ t.events (All-imp _ _ (λ e h. ground arith) t.events v.old_events)

  new-IsCoherent :
      (t : Tenant)
      → prior_issue t project p.fingerprint ≡ none
      → IsCoherent t
      → IsCoherent (stored_at none t)
  new-IsCoherent t e v =
      let issue = new_issue t project p c seen_at in
      let row = event_row project t.next_id p c seen_at in
      let differ = find_if-none _ t.issues e in
      record {
        apart = append-Apart t.issues issue v.apart (
            All-imp _ _
              (λ i h. (
                λ same. ground arith,
                ground (
                  arith,
                  eq_iff i.project project,
                  eq_iff i.fingerprint p.fingerprint,
                  eq_iff project i.project,
                  eq_iff p.fingerprint i.fingerprint,
                ),
              ))
              t.issues (All-zip _ _ t.issues v.old_issues differ));
        counted =
            All-append _ t.issues (issue ∷ [])
              (All-imp _ _ (λ i h. ground (arith, count-append_row i.id t.events row)) t.issues
                (All-zip _ _ t.issues v.counted v.old_issues))
              (ground (arith, count-append_row t.next_id t.events row, fresh_id t v), tt);
        old_issues =
            All-append _ t.issues (issue ∷ [])
              (All-imp _ _ (λ i h. omega arith) t.issues v.old_issues) (omega arith, tt);
        old_events =
            All-append _ t.events (row ∷ [])
              (All-imp _ _ (λ i h. omega arith) t.events v.old_events) (omega arith, tt);
        marks = All-append _ t.issues (issue ∷ []) v.marks (inr refl, tt);
      }

-- The statements after the duplicate check.
pub store_event-IsCoherent :
    (now seen_at : ℕ) (project : String) (p : Prepared) (c : Columns) (t : Tenant)
    → IsCoherent t
    → IsCoherent (store_event now seen_at project p c t).1
unfolding store_event
store_event-IsCoherent now seen_at project p c t v =
    let version = version_of c.release in
    let t' = record t { releases = record_release now project version t.releases } in
    let v' : IsCoherent t' = record {
      apart = v.apart;
      counted = v.counted;
      old_issues = v.old_issues;
      old_events = v.old_events;
      marks = v.marks;
    } in
    elim (Option-cases (prior_issue t project p.fingerprint)) [
      | inl e ↦ rw e (new-IsCoherent now seen_at project p c true t' e v')
      | inr (old, e) ↦
          let b = should_regress_on project (some old) version t'.releases in
          rw e (known-IsCoherent now seen_at project p c b t' old e v')
    ]

-- What every way through the transaction keeps, if storing an event keeps it.
pub transact_keeps {ℓ} :
    (P : Tenant → Type ℓ) (rt : Runtime) (now seen_at : ℕ) (project : String) (o : Option Prepared)
    (t : Tenant)
    → P t
    → ((p : Prepared) (c : Columns) → P (store_event now seen_at project p c t).1)
    → P (transact rt now seen_at project o t).1
transact_keeps P rt now seen_at project none t h step = h
transact_keeps P rt now seen_at project (some p) t h step =
    transact_id_keeps (uuid_column rt p.event_id)
  where
    columns_keep : (o : Option Columns) → P (store_columns now seen_at project p o t).1
    columns_keep none = h
    columns_keep (some c) = elim (Bool-cases (has_partition t seen_at)) [
      | inl there ↦ rw there (step p c)
      | inr gone ↦ rw gone h
    ]

    transact_id_keeps : (o : Option String) → P (transact_id rt now seen_at project p o t).1
    transact_id_keeps none = h
    transact_id_keeps (some id) = elim (Bool-cases (any (is_event project id) t.events)) [
      | inl dup ↦ rw dup h
      | inr new ↦ elim (Bool-cases (has_project t project)) [
        | inl there ↦ rw (new, there) (columns_keep (other_columns rt p id))
        | inr gone ↦ rw (new, gone) h
      ]
    ]

-- The job keeps the rows coherent on every path: poison, duplicate, failed and stored.
pub process_event-IsCoherent :
    (rt : Runtime) (disk : Disk) (depth : ℕ) (maps_dir : String) (now : ℕ)
    (org project received_at : String) (envelope : Json) (t : Tenant)
    → IsCoherent t
    → IsCoherent (process_event rt disk depth maps_dir now org project received_at envelope t).1
unfolding process_event
process_event-IsCoherent rt disk depth maps_dir now org project received_at envelope t v =
    let seen_at = coerce_timestamp rt now received_at in
    transact_keeps IsCoherent rt now seen_at project
      (prepare rt disk depth maps_dir org project envelope) t v
      (λ p c. store_event-IsCoherent now seen_at project p c t v)
