-- ===== src/Issues/Status.antt =====
-- What the actions of server/app/issues.py do to the rows, and what they keep.
use crashlens.Base.{
  All-keep_if, ℕ, ◌≡◌, refl, String, Bool, Option, none, some, List, [], ◌∷◌, All-imp,
  All-update_where, find_if, keep_if, is_some, inl, inr, nat_eq, string_eq, arith, Bool-cases,
}
use crashlens.Store.{Issue, Tenant, is_issue, has_project}
use crashlens.Store.Coherence.{Apart, update_where-Apart, MarksFit, IsCoherent}
use crashlens.Issues.Actions.{
  Action, resolve, ignore, reopen, apply_action, set_issue_status, on_issue, write_issue,
  assign_issue, assign_to, add_comment, has_issue, delete_issue,
}

-- A change of a row that the invariant does not notice.
record Quiet (f : Issue → Issue) : Type 0 where
  same :
      (i : Issue)
      → ((f i).id ≡ i.id) × ((f i).project ≡ i.project) × ((f i).fingerprint ≡ i.fingerprint)
  same_count : (i : Issue) → (f i).event_count ≡ i.event_count
  fits : (i : Issue) → MarksFit i → MarksFit (f i)

on_issue-IsCoherent :
    (action : String) (actor : Option String) (project : String) (f : Issue → Issue)
    (o : Option Issue) (t : Tenant)
    → Quiet f
    → IsCoherent t
    → IsCoherent (on_issue (write_issue action actor project f) o t).0
on_issue-IsCoherent action actor project f none t q v = v
on_issue-IsCoherent action actor project f (some issue) t q v = record {
  apart = update_where-Apart _ f t.issues q.same v.apart;
  counted =
      All-update_where _ _ _ f (λ i h _. ground (arith, q.same i, q.same_count i)) (λ i h _. h)
        t.issues v.counted;
  old_issues =
      All-update_where _ _ _ f (λ i h _. ground (arith, q.same i)) (λ i h _. h) t.issues
        v.old_issues;
  old_events = v.old_events;
  marks = All-update_where _ _ _ f (λ i h _. q.fits i h) (λ i h _. h) t.issues v.marks;
}

action-Quiet : (action : Action) (latest : Option String) → Quiet (apply_action action latest)
unfolding apply_action
action-Quiet resolve latest = record {
  same = λ i. (refl, refl, refl);
  same_count = λ i. refl;
  fits = λ i h. inr refl;
}
action-Quiet ignore latest = record {
  same = λ i. (refl, refl, refl);
  same_count = λ i. refl;
  fits = λ i h. inr refl;
}
action-Quiet reopen latest = record {
  same = λ i. (refl, refl, refl);
  same_count = λ i. refl;
  fits = λ i h. inr refl;
}

pub set_issue_status-IsCoherent :
    (later : String → String → Bool) (project : String) (id : ℕ) (action : Action)
    (actor : Option String) (t : Tenant)
    → IsCoherent t
    → IsCoherent (set_issue_status later project id action actor t).0
unfolding set_issue_status
set_issue_status-IsCoherent later project id action actor t v =
    elim (Bool-cases (has_project t project)) [
      | inl there ↦ rw there (
          on_issue-IsCoherent _ actor project _ (find_if (is_issue project id) t.issues) t
            (action-Quiet action _) v)
      | inr gone ↦ rw gone v
    ]

pub assign_issue-IsCoherent :
    (email_of : String → Option String) (now : ℕ) (project : String) (id : ℕ)
    (user actor : Option String) (t : Tenant)
    → IsCoherent t
    → IsCoherent (assign_issue email_of now project id user actor t).0
unfolding assign_issue
assign_issue-IsCoherent email_of now project id user actor t v =
    let written =
      on_issue-IsCoherent "issue.assigned" actor project (assign_to user)
        (find_if (is_issue project id) t.issues) t
        (record { same = λ i. (refl, refl, refl); same_count = λ i. refl; fits = λ i h. h }) v in
    ground arith

pub add_comment-IsCoherent :
    (email_of : String → Option String) (now : ℕ) (project : String) (id : ℕ) (author body : String)
    (t : Tenant)
    → IsCoherent t
    → IsCoherent (add_comment email_of now project id author body t).0
unfolding add_comment
add_comment-IsCoherent email_of now project id author body t v =
    elim (Bool-cases (has_issue project id t)) [
      | inl there ↦ rw there (record {
        apart = v.apart;
        counted = v.counted;
        old_issues = All-imp _ _ (λ i h. omega arith) t.issues v.old_issues;
        old_events = All-imp _ _ (λ e h. omega arith) t.events v.old_events;
        marks = v.marks;
      })
      | inr gone ↦ rw gone v
    ]

keep_if-Apart : (p : Issue → Bool) (issues : List Issue) → Apart issues → Apart (keep_if p issues)
keep_if-Apart p [] h = tt
keep_if-Apart p (i ∷ issues) h = elim (Bool-cases (p i)) [
  | inl hit ↦ rw hit (All-keep_if _ p issues h.0, keep_if-Apart p issues h.1)
  | inr miss ↦ rw miss (keep_if-Apart p issues h.1)
]

pub delete_issue-IsCoherent :
    (project : String) (id : ℕ) (actor : Option String) (t : Tenant)
    → IsCoherent t
    → IsCoherent (delete_issue project id actor t).0
unfolding delete_issue
delete_issue-IsCoherent project id actor t v =
    elim (Bool-cases (is_some (find_if (is_issue project id) t.issues))) [
      | inl there ↦ rw there (record {
        apart = keep_if-Apart _ t.issues v.apart;
        counted = All-keep_if _ _ t.issues v.counted;
        old_issues = All-keep_if _ _ t.issues v.old_issues;
        old_events = v.old_events;
        marks = All-keep_if _ _ t.issues v.marks;
      })
      | inr gone ↦ rw gone v
    ]
