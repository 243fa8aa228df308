-- ===== src/Projects/Refinement.antt =====
-- The requests of server/app/projects.py implement the map of the DSN keys.
use crashlens.Base.{
  ℕ, ◌≡◌, refl, ◌∙◌, String, Bool, true, false, Option, none, some, List, [], ◌∷◌, ◌++◌, any,
  find_if, update_where, nat_eq, string_eq, if_both,
}
use crashlens.Accounts.Users.{Crypto}
use crashlens.Workspace.{Project, Key, Workspace, Act, is_project}
use crashlens.Projects.{
  make_project_slug, same_slug, create_project, update_project_sampling, update_found,
  delete_project, delete_found, create_dsn_key, mint, revoke_dsn_key, has_public_key, is_revocable,
  revoked, new_key, new_project, with_rate, without_project,
}
use crashlens.Projects.Keys.{
  Routes, routes, Op, make_project, set_sampling, drop_project, make_key, revoke, routed, ok, serve,
  KeysApart, Refines, Refines-audited,
}
use crashlens.Projects.Keys.Changes.{
  minted, apart_snoc, revoked_lem, apart_update, dropped, apart_kept,
}

-- One request of the rows does to the map of the keys what the specification says, where it is granted,
-- and changes no row where it is not.
pub serve-Refines :
    (c : Crypto) (text : ℕ → String) (act : Act) (op : Op) (w : Workspace)
    → KeysApart w.keys
    → Refines act op w (serve c text act op w)
unfolding create_project update_project_sampling delete_project create_dsn_key revoke_dsn_key
serve-Refines c text act (make_project rate token name platform) w apart =
    if_both
      (λ (r : Option Project × Workspace).
        Refines act (make_project rate token name platform) w (ok r))
      (any (same_slug act.org_id (make_project_slug c token name)) w.projects) _ _ (λ _. refl)
      (λ _.
        Refines-audited act (make_project rate token name platform) c.lower _ _ w
          (record w {
            projects =
                w.projects
                ++ new_project act name (make_project_slug c token name) platform rate ∷ [];
          })
          apart (λ key. refl))
serve-Refines c text act (set_sampling project_id rate) w apart =
    go (find_if (is_project act.org_id project_id) w.projects)
  where
    go :
        (o : Option Project)
        → Refines act (set_sampling project_id rate) w (ok (update_found c act project_id rate o w))
    go none = refl
    go (some p) =
        Refines-audited act (set_sampling project_id rate) c.lower _ _ w
          (record w {
            projects = update_where (is_project act.org_id project_id) (with_rate rate) w.projects;
          })
          apart (λ key. refl)
serve-Refines c text act (drop_project project_id) w apart =
    go (find_if (is_project act.org_id project_id) w.projects)
  where
    go :
        (o : Option Project)
        → Refines act (drop_project project_id) w (ok (delete_found c act project_id o w))
    go none = refl
    go (some p) =
        Refines-audited act (drop_project project_id) c.lower _ _ w (without_project project_id w)
          (apart_kept _ w.keys apart) (λ key. dropped project_id w.keys key apart)
serve-Refines c text act (make_key project_id public_key) w apart =
    go (find_if (is_project act.org_id project_id) w.projects)
  where
    go :
        (o : Option Project)
        → Refines act
            (make_key project_id public_key)
            w
            (ok (mint c text act project_id public_key o w))
    go none = refl
    go (some p) =
        if_both
          (λ (r : Option Key × Workspace). Refines act (make_key project_id public_key) w (ok r))
          (any (has_public_key public_key) w.keys) _ _ (λ _. refl)
          (λ unused.
            Refines-audited act (make_key project_id public_key) c.lower _ _ w
              (record w { keys = w.keys ++ new_key act project_id public_key ∷ [] })
              (apart_snoc w.keys (new_key act project_id public_key) apart unused)
              (λ key. minted act project_id public_key w key unused))
serve-Refines c text act (revoke project_id key_id) w apart =
    if_both (λ (r : Option (Unit {0}) × Workspace). Refines act (revoke project_id key_id) w (ok r))
      (any (is_revocable act.org_id project_id key_id) w.keys) _ _
      (λ _.
        Refines-audited act (revoke project_id key_id) c.lower _ _ w
          (record w {
            keys =
                update_where (is_revocable act.org_id project_id key_id) (revoked act.now) w.keys;
          })
          (apart_update (is_revocable act.org_id project_id key_id) (revoked act.now) w.keys
            (λ k. refl) apart)
          (λ key. revoked_lem act project_id key_id w.keys key))
      (λ _. refl)

-- The requests one after the other, and those of them that are granted.
abbrev pub run : Crypto → (ℕ → String) → List (Act × Op) → Workspace → Workspace
run c text [] w = w
run c text ((act, op) ∷ requests) w = run c text requests (serve c text act op w).1

abbrev pub and_if : Bool → Act × Op → List (Act × Op) → List (Act × Op)
and_if true request requests = request ∷ requests
and_if false request requests = requests

abbrev pub granted : Crypto → (ℕ → String) → List (Act × Op) → Workspace → List (Act × Op)
granted c text [] w = []
granted c text ((act, op) ∷ requests) w =
    let r = serve c text act op w in and_if r.0 (act, op) (granted c text requests r.1)

abbrev pub routed_all : List (Act × Op) → Routes → Routes
routed_all [] r = r
routed_all ((act, op) ∷ requests) r = routed_all requests (routed act op r)

routed_same :
    (act : Act) (op : Op) (r s : Routes)
    → ((key : String) → r key ≡ s key)
    → (key : String) → routed act op r key ≡ routed act op s key
routed_same act (make_project rate token name platform) r s e key = e key
routed_same act (set_sampling project_id rate) r s e key = e key
routed_same act (drop_project project_id) r s e key = rw (e key) refl
routed_same act (make_key project_id public_key) r s e key = rw (e key) refl
routed_same act (revoke project_id key_id) r s e key = rw (e key) refl

routed_all_same :
    (requests : List (Act × Op)) (r s : Routes)
    → ((key : String) → r key ≡ s key)
    → (key : String) → routed_all requests r key ≡ routed_all requests s key
routed_all_same [] r s e key = e key
routed_all_same ((act, op) ∷ requests) r s e key =
    routed_all_same requests (routed act op r) (routed act op s) (routed_same act op r s e) key

-- Whatever requests are served, by whomever and in whatever order, the keys that can receive events and
-- the projects that their events go to are those that the specification gives for the requests that
-- were granted: a new key goes to its project, a revocation takes one key away and a deleted project
-- all of its keys, and no other request changes where an event goes. Public keys are unique before.
pub run-refines :
    (c : Crypto) (text : ℕ → String) (requests : List (Act × Op)) (w : Workspace)
    → KeysApart w.keys
    → (key : String)
    → routes (run c text requests w) key ≡ routed_all (granted c text requests w) (routes w) key
run-refines c text [] w apart key = refl
run-refines c text ((act, op) ∷ requests) w apart key =
    go (serve c text act op w) (serve-Refines c text act op w apart)
      (λ w' apart'. run-refines c text requests w' apart' key)
  where
    go :
        (r : Bool × Workspace)
        → Refines act op w r
        → ((w' : Workspace)
            → KeysApart w'.keys
            → routes (run c text requests w') key
              ≡ routed_all (granted c text requests w') (routes w') key)
        → routes (run c text requests r.1) key
          ≡ routed_all (and_if r.0 (act, op) (granted c text requests r.1)) (routes w) key
    go (false, w') same later = rw same (later w apart)
    go (true, w') (apart', same) later =
        later w' apart'
        ∙ routed_all_same (granted c text requests w') (routes w') (routed act op (routes w)) same
            key
