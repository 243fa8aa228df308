-- ===== src/Projects/Ingest.antt =====
-- The requests of server/app/projects.py and the endpoint of server/app/routes/ingest.py on the same
-- tables.
use mathlib.Core.Option
use crashlens.Base.{
  ℕ, ◌≡◌, refl, ◌∙◌, String, Bool, true, false, Option, none, some, List, [], ◌∷◌, any, map,
  find_if, ◌==◌, nat_eq, string_eq, arith, Bool-cases, inl, inr, if◌then◌else◌,
}
use crashlens.Audit.{log, check_data_safety}
use crashlens.Accounts.Users.{Crypto}
use crashlens.Workspace.{Project, Key, Workspace, Act}
use crashlens.Projects.{has_public_key, is_revocable, revoke_dsn_key}
use crashlens.Projects.Keys.{Target, routes, target_of, KeysApart, is_target, unless}
use crashlens.Projects.Keys.Changes.{revoked_lem}
use crashlens.Ingest.Endpoint.{
  Project as EndpointProject, DsnKey, join_project, resolve_dsn_key, Web, Moment, Request, World,
  rejected, ingest_event, on_record,
}

-- The columns that the endpoint reads; `text` is `str` of a uuid.
abbrev pub key_row : (ℕ → String) → Key → DsnKey
key_row text k = record {
  id = text k.id;
  public_key = k.public_key;
  org_id = text k.org_id;
  project_id = text k.project_id;
  status = if k.is_active then "active" else "revoked";
}

abbrev pub project_row : (ℕ → String) → Project → EndpointProject
project_row text p = record { id = text p.id; sampling_rate = p.sampling_rate }

-- The endpoint's tables are those of the workspace.
abbrev pub with_tables : (ℕ → String) → Workspace → World → World
with_tables text w world = record world {
  keys = map (key_row text) w.keys;
  projects = map (project_row text) w.projects;
}

find_if-key_row :
    (text : ℕ → String) (public_key : String) (keys : List Key)
    → find_if (λ (k : DsnKey). k.public_key == public_key) (map (key_row text) keys)
      ≡ Option.map (key_row text) (find_if (has_public_key public_key) keys)
find_if-key_row text public_key [] = refl
find_if-key_row text public_key (k ∷ keys) = elim (Bool-cases (has_public_key public_key k)) [
  | inl its ↦ rw its refl
  | inr other ↦ rw (other, find_if-key_row text public_key keys) refl
]

-- A key that the map does not have is refused.
unrouted :
    (text : ℕ → String) (web : Web) (m : Moment) (project_id : String) (request : Request)
    (u : World) (projects : List EndpointProject) (o : Option Key)
    → target_of o ≡ none
    → on_record web m project_id (join_project projects (Option.map (key_row text) o)) request u
      ≡ (rejected "invalid_key" 401 none, u)
unrouted text web m project_id request u projects none h = refl
unrouted text web m project_id request u projects (some k) h =
    go (find_if (λ (p : EndpointProject). p.id == text k.project_id) projects)
  where
    inactive : k.is_active ≡ false
    inactive = ground arith

    go :
        (p : Option EndpointProject)
        → on_record web m project_id
            (Option.map
              (λ (p : EndpointProject). record {
                id = text k.id;
                org_id = text k.org_id;
                project_id = text k.project_id;
                status = if k.is_active then "active" else "revoked";
                sampling_rate = p.sampling_rate;
              })
              p)
            request
            u
          ≡ (rejected "invalid_key" 401 none, u)
    go none = refl
    go (some p) = rw inactive refl

-- A request whose public key is not in the map of the keys is answered 401, and nothing changes.
ingest-unrouted :
    (text : ℕ → String) (web : Web) (m : Moment) (project_id public_key : String)
    (request : Request) (w : Workspace) (world : World)
    → request.public_key ≡ some public_key
    → public_key == "" ≡ false
    → routes w public_key ≡ none
    → ingest_event web m project_id request (with_tables text w world)
      ≡ (rejected "invalid_key" 401 none, with_tables text w world)
unfolding ingest_event resolve_dsn_key
ingest-unrouted text web m project_id public_key request w world sent full h =
    rw (sent, full, find_if-key_row text public_key w.keys)
      (unrouted text web m project_id (record request { public_key = some public_key })
        (with_tables text w world) (map (project_row text) w.projects)
        (find_if (has_public_key public_key) w.keys) h)

any_of_found {ℓ} :
    {A : Type ℓ} (p q : A → Bool) (xs : List A) (x : A)
    → find_if p xs ≡ some x
    → q x ≡ true
    → any q xs ≡ true
any_of_found p q [] x found h = cc
any_of_found p q (y ∷ xs) x found h = elim (Bool-cases (p y)) [
  | inl hit ↦ let same : y ≡ x = ground arith in rw (same, h) refl
  | inr miss ↦ let rest = any_of_found p q xs x (ground arith) h in ground arith
]

routed_key :
    (t : Target) (keys : List Key) (public_key : String) (o : Option Key)
    → find_if (has_public_key public_key) keys ≡ o
    → target_of o ≡ some t
    → any (is_revocable t.org_id t.project_id t.key_id) keys ≡ true
routed_key t keys public_key none found h = cc
routed_key t keys public_key (some k) found h = elim (Bool-cases k.is_active) [
  | inl active ↦
      let its : record { key_id = k.id; org_id = k.org_id; project_id = k.project_id } ≡ t = cc in
      any_of_found (has_public_key public_key) (is_revocable t.org_id t.project_id t.key_id) keys k
        found (rw (← its) (ground arith))
  | inr inactive ↦ cc
]

-- Revoking a key that can receive events, by an administrator of its organisation, succeeds, and from
-- then on every event that is sent with its public key, to whatever project, is answered 401 and
-- changes nothing: no token is spent and no job is queued. Public keys are unique, the key is not
-- empty, and `str.lower` keeps the word project_id.
pub revoke_dsn_key-refused :
    (c : Crypto) (text : ℕ → String) (act : Act) (w : Workspace) (t : Target) (public_key : String)
    (web : Web) (m : Moment) (project_id : String) (request : Request) (world : World)
    → KeysApart w.keys
    → c.lower "project_id" ≡ "project_id"
    → routes w public_key ≡ some t
    → act.org_id ≡ t.org_id
    → request.public_key ≡ some public_key
    → public_key == "" ≡ false
    → let r = revoke_dsn_key c text act t.project_id t.key_id w in
      (r.0 ≡ some tt)
      × (ingest_event web m project_id request (with_tables text r.1 world)
          ≡ (rejected "invalid_key" 401 none, with_tables text r.1 world))
unfolding revoke_dsn_key log check_data_safety
revoke_dsn_key-refused c text act w t public_key web m project_id request world apart low live mine
      sent full =
    let found =
      routed_key t w.keys public_key (find_if (has_public_key public_key) w.keys) refl live in
    let some_key : any (is_revocable act.org_id t.project_id t.key_id) w.keys ≡ true =
      rw mine found in
    let r = revoke_dsn_key c text act t.project_id t.key_id w in
    let ran : r.0 ≡ some tt = rw (some_key, low) refl in
    let its : is_target act.org_id t.project_id t.key_id t ≡ true = ground arith in
    let taken = revoked_lem act t.project_id t.key_id w.keys public_key in
    let none_left : unless (is_target act.org_id t.project_id t.key_id) (routes w public_key)
        ≡ none =
      rw live (rw its refl) in
    let gone : routes r.1 public_key ≡ none = rw (some_key, low) (taken ∙ none_left) in
    (ran, ingest-unrouted text web m project_id public_key request r.1 world sent full gone)
