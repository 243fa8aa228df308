-- ===== src/Projects/Tests.antt =====
-- Runs and witnesses of the projects and their keys.
use crashlens.Base.{
  ℕ, zero, suc, ◌≡◌, refl, update_where, String, true, false, none, some, List, [], ◌∷◌, ◌==◌,
  string_eq,
}
use crashlens.Audit.{log, check_data_safety}
use crashlens.Accounts.Users.{Crypto}
use crashlens.Workspace.{Key, Workspace, Act}
use crashlens.Projects.{create_project, create_dsn_key, revoke_dsn_key, make_project_slug}
use crashlens.Projects.Keys.{Op, make_project, make_key, revoke, routes}
use crashlens.Projects.Refinement.{run, granted, routed_all, run-refines}
use crashlens.Projects.Ingest.{with_tables, revoke_dsn_key-refused}
use crashlens.Ingest.Endpoint.{rejected, Request, ingest_event}
use crashlens.Samples.{plain_web, world, moment}

abbrev plain : Crypto
plain = record {
  hash_password = λ salt password. password;
  verify_password = λ hash password. hash == password;
  sha256 = λ t. t;
  lower = λ s. s;
  dashed = λ s. s;
  is_common = λ s. false;
}

abbrev act : ℕ → Act
act id = record { org_id = 1; actor_user_id = some 2; now = 9; new_id = id; audit_id = 100 }

abbrev empty : Workspace
empty = record { projects = []; keys = []; channels = []; audits = [] }

abbrev id_text : ℕ → String
id_text zero = "zero"
id_text (suc n) = "more"

abbrev requests : List (Act × Op)
requests =
    (act 5, make_project 100 "abcdefgh" "shop" none)
    ∷ (act 6, make_key 5 "pk")
    ∷ (act 7, make_key 8 "no")
    ∷ (act 9, make_key 5 "old")
    ∷ (act 0, revoke 5 9)
    ∷ []

abbrev served : Workspace
served = run plain id_text requests empty

run-refines_example :
    routes served "pk" ≡ routed_all (granted plain id_text requests empty) (routes empty) "pk"
run-refines_example = run-refines plain id_text requests empty tt "pk"

key_goes_to_project : routes served "pk" ≡ some (record { key_id = 6; org_id = 1; project_id = 5 })
unfolding create_project create_dsn_key revoke_dsn_key make_project_slug log check_data_safety
    update_where
key_goes_to_project = refl

old_key_is_gone : routes served "old" ≡ none
unfolding create_project create_dsn_key revoke_dsn_key make_project_slug log check_data_safety
    update_where
old_key_is_gone = refl

abbrev key : Key
key = record {
  id = 6;
  org_id = 1;
  project_id = 5;
  public_key = "pk";
  is_active = true;
  revoked_at = none;
  created_at = 3;
}

abbrev one_key : Workspace
one_key = record empty { keys = key ∷ [] }

abbrev with_key : Request
with_key = record { public_key = some "pk"; encoding = ""; body = 1 ∷ [] }

revoke_dsn_key-refused_example :
    let r = revoke_dsn_key plain id_text (act 0) 5 6 one_key in
    (r.0 ≡ some tt)
    × (ingest_event plain_web moment "p" with_key (with_tables id_text r.1 world)
        ≡ (rejected "invalid_key" 401 none, with_tables id_text r.1 world))
revoke_dsn_key-refused_example =
    revoke_dsn_key-refused plain id_text (act 0) one_key
      (record { key_id = 6; org_id = 1; project_id = 5 }) "pk" plain_web moment "p" with_key world
      (tt, tt) refl refl refl refl refl
