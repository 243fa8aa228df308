-- ===== src/Projects/Keys/Changes.antt =====
-- What a new, a revoked and a deleted key of server/app/projects.py change in the map of the keys.
use crashlens.Base.{
  All-keep_if, ℕ, ◌≡◌, refl, String, Bool, true, false, not, none, some, List, [], ◌∷◌, ◌++◌, All,
  All-append, All-update_where, any, find_if, keep_if, update_where, ◌==◌, nat_eq, string_eq,
  eq_iff, arith, Bool-cases, inl, inr,
}
use crashlens.Workspace.{Key, Workspace, Act}
use crashlens.Projects.{has_public_key, is_revocable, revoked, new_key}
use crashlens.Projects.Keys.{
  Target, target_of, routes, make_key, is_target, unless, routed, KeysApart,
}

find_if-snoc :
    (p : Key → Bool) (keys : List Key) (k : Key)
    → p k ≡ false
    → find_if p (keys ++ k ∷ []) ≡ find_if p keys
find_if-snoc p [] k h = rw h refl
find_if-snoc p (l ∷ keys) k h = rw (find_if-snoc p keys k h) refl

find_if-new :
    (p : Key → Bool) (keys : List Key) (k : Key)
    → p k ≡ true
    → any p keys ≡ false
    → find_if p (keys ++ k ∷ []) ≡ some k
find_if-new p [] k h none_yet = rw h refl
find_if-new p (l ∷ keys) k h none_yet =
    let miss : p l ≡ false = ground arith in rw (miss, find_if-new p keys k h (ground arith)) refl

pub minted :
    (act : Act) (project_id : ℕ) (public_key : String) (w : Workspace) (key : String)
    → any (has_public_key public_key) w.keys ≡ false
    → target_of (find_if (has_public_key key) (w.keys ++ new_key act project_id public_key ∷ []))
      ≡ routed act (make_key project_id public_key) (routes w) key
minted act project_id public_key w key unused = elim (Bool-cases (public_key == key)) [
  | inl its ↦
      let same : public_key ≡ key = (eq_iff public_key key).0 its in
      let none_yet : any (has_public_key key) w.keys ≡ false = rw (← same) unused in
      rw
        (
          its,
          find_if-new (has_public_key key) w.keys (new_key act project_id public_key) its none_yet,
        )
        refl
  | inr other ↦
      rw (other, find_if-snoc (has_public_key key) w.keys (new_key act project_id public_key) other)
        refl
]

pub apart_snoc :
    (keys : List Key) (k : Key)
    → KeysApart keys
    → any (has_public_key k.public_key) keys ≡ false
    → KeysApart (keys ++ k ∷ [])
apart_snoc [] k h unused = (tt, tt)
apart_snoc (l ∷ keys) k h unused = (
  All-append _ keys (k ∷ []) h.0
      (ground (arith, eq_iff k.public_key l.public_key, eq_iff l.public_key k.public_key), tt),
  apart_snoc keys k h.1 (ground arith),
)

pub revoked_lem :
    (act : Act) (project_id key_id : ℕ) (keys : List Key) (key : String)
    → target_of (
        find_if
          (has_public_key key)
          (update_where (is_revocable act.org_id project_id key_id) (revoked act.now) keys))
      ≡ unless
          (is_target act.org_id project_id key_id)
          (target_of (find_if (has_public_key key) keys))
unfolding update_where
revoked_lem act project_id key_id [] key = refl
revoked_lem act project_id key_id (k ∷ keys) key =
    let rest = revoked_lem act project_id key_id keys key in
    elim (Bool-cases (has_public_key key k)) [
      | inl its ↦ elim (Bool-cases (k.is_active)) [
        | inl active ↦
            elim (Bool-cases (
              is_target act.org_id project_id key_id
                (record { key_id = k.id; org_id = k.org_id; project_id = k.project_id }))) [
                  | inl hit ↦
                      let q : is_revocable act.org_id project_id key_id k ≡ true = ground arith in
                      rw (q, its, active, hit) refl
                  | inr miss ↦
                      let q : is_revocable act.org_id project_id key_id k ≡ false = ground arith in
                      rw (q, its, active, miss) refl
                ]
        | inr inactive ↦
            let q : is_revocable act.org_id project_id key_id k ≡ false = ground arith in
            rw (q, its, inactive) refl
      ]
      | inr other ↦ elim (Bool-cases (is_revocable act.org_id project_id key_id k)) [
        | inl q ↦ rw (q, other) rest
        | inr q ↦ rw (q, other) rest
      ]
    ]

pub apart_update :
    (p : Key → Bool) (f : Key → Key) (keys : List Key)
    → ((k : Key) → (f k).public_key ≡ k.public_key)
    → KeysApart keys
    → KeysApart (update_where p f keys)
unfolding update_where
apart_update p f [] same h = tt
apart_update p f (k ∷ keys) same h =
    let rest = apart_update p f keys same h.1 in
    elim (Bool-cases (p k)) [
      | inl hit ↦ rw hit (
        All-update_where _ _ p f (λ l d _. rw (same k, same l) d) (λ l d _. rw (same k) d) keys h.0,
        rest,
      )
      | inr miss ↦
          rw miss (All-update_where _ _ p f (λ l d _. rw (same l) d) (λ l d _. d) keys h.0, rest)
    ]

pub apart_kept : (p : Key → Bool) (keys : List Key) → KeysApart keys → KeysApart (keep_if p keys)
apart_kept p [] h = tt
apart_kept p (k ∷ keys) h = elim (Bool-cases (p k)) [
  | inl hit ↦ rw hit (All-keep_if _ p keys h.0, apart_kept p keys h.1)
  | inr miss ↦ rw miss (apart_kept p keys h.1)
]

none_found :
    (p : Key → Bool) (keys : List Key) → All (λ k. p k ≡ false) keys → find_if p keys ≡ none
none_found p [] h = refl
none_found p (k ∷ keys) h = rw (h.0, none_found p keys h.1) refl

pub dropped :
    (project_id : ℕ) (keys : List Key) (key : String)
    → KeysApart keys
    → target_of (
        find_if (has_public_key key) (keep_if (λ (k : Key). not (k.project_id == project_id)) keys))
      ≡ unless
          (λ (t : Target). t.project_id == project_id)
          (target_of (find_if (has_public_key key) keys))
dropped project_id [] key h = refl
dropped project_id (k ∷ keys) key h =
    let rest = dropped project_id keys key h.1 in
    let left = keep_if (λ (k : Key). not (k.project_id == project_id)) keys in
    elim (Bool-cases (k.project_id == project_id)) [
      | inl goes ↦ elim (Bool-cases (has_public_key key k)) [
        | inl its ↦
            let same : k.public_key ≡ key = (eq_iff k.public_key key).0 its in
            let others : All (λ (l : Key). has_public_key key l ≡ false) keys = rw (← same) h.0 in
            let gone = none_found (has_public_key key) left (All-keep_if _ _ keys others) in
            elim (Bool-cases k.is_active) [
              | inl active ↦ rw (goes, its, gone, active, goes) refl
              | inr inactive ↦ rw (goes, its, gone, inactive) refl
            ]
        | inr other ↦ rw (goes, other) rest
      ]
      | inr stays ↦ elim (Bool-cases (has_public_key key k)) [
        | inl its ↦ elim (Bool-cases k.is_active) [
          | inl active ↦ rw (stays, its, active, stays) refl
          | inr inactive ↦ rw (stays, its, inactive) refl
        ]
        | inr other ↦ rw (stays, other) rest
      ]
    ]
