-- ===== src/Store/Coherence.antt =====
-- The invariant of an organisation's rows.
use crashlens.Base.{
  ℕ, ◌<◌, ◌≡◌, ◌≢◌, ◌⊎◌, inl, inr, refl, String, Bool, true, false, none, some, List, [], ◌∷◌, All,
  All-imp, All-update_where, update_where, subst, count_if, find_if, find_if-All, ◌==◌, nat_eq,
  string_eq, eq_iff, arith, Bool-cases,
}
use crashlens.Store.{regressed, Issue, Event, Tenant, has_fingerprint}

-- Two issues have different ids, and no two of one project the same fingerprint.
abbrev pub Apart : List Issue → Type 0
Apart [] = Unit {0}
Apart (i ∷ issues) =
    All (λ j. (i.id ≢ j.id) × (has_fingerprint i.project i.fingerprint j ≡ false)) issues
    × Apart issues

abbrev pub of_issue : ℕ → Event → Bool
of_issue id event = event.issue_id == id

-- The came-back-in release stands on regressed issues alone.
abbrev pub MarksFit : Issue → Type 0
MarksFit i = (i.status ≡ regressed) ⊎ (i.regressed_in_release ≡ none)

pub record IsCoherent (t : Tenant) : Type 0 where
  pub apart : Apart t.issues
  -- An issue counts the stored events that belong to it.
  pub counted : All (λ i. i.event_count ≡ count_if (of_issue i.id) t.events) t.issues
  pub old_issues : All (λ i. i.id < t.next_id) t.issues
  pub old_events : All (λ (e : Event). e.issue_id < t.next_id) t.events
  pub marks : All MarksFit t.issues

-- The row that a fingerprint finds is the only one that has it.
abbrev pub Only : String → String → Issue → Issue → Type 0
Only project fingerprint old x =
    ((has_fingerprint project fingerprint x ≡ true) × (x.id ≡ old.id))
    ⊎ ((has_fingerprint project fingerprint x ≡ false) × (x.id ≢ old.id))

others_differ :
    (project fingerprint : String) (i j : Issue)
    → has_fingerprint project fingerprint i ≡ true
    → (i.id ≢ j.id) × (has_fingerprint i.project i.fingerprint j ≡ false)
    → Only project fingerprint i j
others_differ project fingerprint i j h d = inr (
  ground (arith, eq_iff i.project project, eq_iff i.fingerprint fingerprint),
  λ e. d.0 (ground arith),
)

pub has_fingerprint-Only :
    (project fingerprint : String) (issues : List Issue) (old : Issue)
    → Apart issues
    → find_if (has_fingerprint project fingerprint) issues ≡ some old
    → All (Only project fingerprint old) issues
has_fingerprint-Only project fingerprint [] old apart h = tt
has_fingerprint-Only project fingerprint (i ∷ issues) old apart h =
    elim (Bool-cases (has_fingerprint project fingerprint i)) [
      | inl hit ↦
          let same : i ≡ old = ground arith in
          subst (λ o. All (Only project fingerprint o) (i ∷ issues)) same
            (
              inl (hit, refl),
              All-imp _ _ (λ j d. others_differ project fingerprint i j hit d) issues apart.0,
            )
      | inr miss ↦
          let found : find_if (has_fingerprint project fingerprint) issues ≡ some old =
            ground arith in
          let differs =
            find_if-All _ (has_fingerprint project fingerprint) issues old apart.0 found in
          (inr (miss, differs.0), has_fingerprint-Only project fingerprint issues old apart.1 found)
    ]

-- Rewriting rows keeps them apart where it keeps their ids, projects and fingerprints.
pub update_where-Apart :
    (p : Issue → Bool) (f : Issue → Issue) (issues : List Issue)
    → ((i : Issue)
        → ((f i).id ≡ i.id) × ((f i).project ≡ i.project) × ((f i).fingerprint ≡ i.fingerprint))
    → Apart issues
    → Apart (update_where p f issues)
unfolding update_where
update_where-Apart p f [] same apart = tt
update_where-Apart p f (i ∷ issues) same apart =
    let tail = update_where-Apart p f issues same apart.1 in
    elim (Bool-cases (p i)) [
      | inl hit ↦ rw hit (
        All-update_where _ _ p f (λ j d _. ground (arith, same i, same j))
            (λ j d _. ground (arith, same i)) issues apart.0,
        tail,
      )
      | inr miss ↦ rw miss (
        All-update_where _ _ p f (λ j d _. ground (arith, same j)) (λ j d _. d) issues apart.0,
        tail,
      )
    ]
