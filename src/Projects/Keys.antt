-- ===== src/Projects/Keys.antt =====
-- The DSN keys of server/app/projects.py as a map from the public keys that can receive events to where
-- the events go.
pub mod Changes
use crashlens.Base.{
  All-keep_if, ℕ, ◌≡◌, refl, String, Bool, true, false, not, ◌&&◌, Option, none, some, List, [],
  ◌∷◌, ◌++◌, All, All-append, All-update_where, any, find_if, keep_if, update_where, ◌==◌, nat_eq,
  string_eq, eq_iff, arith, Bool-cases, inl, inr, if◌then◌else◌,
}
use crashlens.Audit.{Entry, log}
use crashlens.Accounts.Users.{Crypto}
use crashlens.Workspace.{Key, Workspace, Act, audited, with_audits}
use crashlens.Projects.{
  create_project, update_project_sampling, delete_project, create_dsn_key, revoke_dsn_key,
  has_public_key, is_revocable, revoked, new_key,
}

-- Where the events of an active key go.
pub record Target : Type 0 where
  pub key_id : ℕ
  pub org_id : ℕ
  pub project_id : ℕ

abbrev pub Routes : Type 0
Routes = String → Option Target

abbrev pub target_of : Option Key → Option Target
target_of none = none
target_of (some k) =
    if k.is_active
    then some (record { key_id = k.id; org_id = k.org_id; project_id = k.project_id })
    else none

-- What the rows say.
abbrev pub routes : Workspace → Routes
routes w public_key = target_of (find_if (has_public_key public_key) w.keys)

-- The requests, each with who acts.
pub data Op : Type 0 where
  make_project : ℕ → String → String → Option String → Op
  set_sampling : ℕ → ℕ → Op
  drop_project : ℕ → Op
  make_key : ℕ → String → Op
  revoke : ℕ → ℕ → Op

-- What each does to the map: the specification.
abbrev pub is_target : ℕ → ℕ → ℕ → Target → Bool
is_target org_id project_id key_id t =
    t.org_id == org_id && (t.key_id == key_id && t.project_id == project_id)

abbrev pub unless : (Target → Bool) → Option Target → Option Target
unless p none = none
unless p (some t) = if p t then none else some t

abbrev pub routed : Act → Op → Routes → Routes
routed act (make_key project_id public_key) r = λ key.
    if public_key == key
    then some (record { key_id = act.new_id; org_id = act.org_id; project_id = project_id })
    else r key
routed act (revoke project_id key_id) r =
    λ key. unless (is_target act.org_id project_id key_id) (r key)
routed act (drop_project project_id) r =
    λ key. unless (λ (t : Target). t.project_id == project_id) (r key)
routed act (make_project rate token name platform) r = r
routed act (set_sampling project_id rate) r = r

abbrev pub ok : {A : Type 0} → Option A × Workspace → Bool × Workspace
ok (none, w) = (false, w)
ok (some a, w) = (true, w)

-- What the program does: whether the request is granted, and the rows.
abbrev pub serve : Crypto → (ℕ → String) → Act → Op → Workspace → Bool × Workspace
serve c text act (make_project rate token name platform) w =
    ok (create_project c act rate token name platform w)
serve c text act (set_sampling project_id rate) w =
    ok (update_project_sampling c act project_id rate w)
serve c text act (drop_project project_id) w = ok (delete_project c act project_id w)
serve c text act (make_key project_id public_key) w =
    ok (create_dsn_key c text act project_id public_key w)
serve c text act (revoke project_id key_id) w = ok (revoke_dsn_key c text act project_id key_id w)

-- Public keys are unique, as the constraint of `dsn_keys` has it.
abbrev pub KeysApart : List Key → Type 0
KeysApart [] = Unit {0}
KeysApart (k ∷ keys) =
    All (λ (l : Key). has_public_key k.public_key l ≡ false) keys × KeysApart keys

-- A request that is granted does to the map what the specification says, and one that is not leaves
-- the rows as they are.
abbrev pub Refines : Act → Op → Workspace → Bool × Workspace → Type 0
Refines act op w (false, w') = w' ≡ w
Refines act op w (true, w') =
    KeysApart w'.keys × ((key : String) → routes w' key ≡ routed act op (routes w) key)

-- A transaction with its row of the audit log.
pub Refines-audited :
    {A : Type 0} (act : Act) (op : Op) (lower : String → String) (e : Entry) (a : A)
    (w after : Workspace)
    → KeysApart after.keys
    → ((key : String) → routes after key ≡ routed act op (routes w) key)
    → Refines act op w (ok (audited lower e a w after))
Refines-audited act op lower e a w after apart same = go (log lower e w.audits)
  where
    go : (o : Option (List Entry)) → Refines act op w (ok (with_audits a w after o))
    go none = refl
    go (some audits) = (apart, same)
