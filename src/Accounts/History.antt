-- ===== src/Accounts/History.antt =====
-- The accounts over time: the requests of server/app/accounts.py and server/app/admin.py and the command
-- of server/app/cli.py, one at a time, each behind its dependency of server/app/auth.py.
mod Writes
mod Invites
use mathlib.Core.Option
use crashlens.Base.{
  ℕ, ◌+◌, ◌≤◌, ◌<◌, ◌≡◌, ◌≢◌, ◌⊎◌, inl, inr, refl, String, Bool, true, false, Option, none, some,
  is_some, List, [], ◌∷◌, ◌++◌, All, All-append, All-imp, All-update_where, All-zip, any,
  any-append, find_if, find_if-none, find_if-All, update_where, ◌==◌, nat_eq, string_eq, eq_iff,
  arith, Bool-cases, Option-cases, if_both, if◌then◌else◌,
}
use crashlens.Audit.{Entry, log}
use crashlens.Accounts.Users.{
  Crypto, User, Org, Membership, Invite, Instance, has_email, has_id, of_member, empty_instance,
  validate_password, load_user_by_id, require_org_admin, require_instance_admin,
}
use crashlens.Accounts.Login.{authenticate, attempt, log_in, flush}
use crashlens.Accounts.Signup.{
  Account, is_valid_role, signup, make_org_slug, sign_up_as, new_user, create_invite, new_invite,
  invited_rows, accept_invite, accept_with, join, join_as, joined_rows, with_user, commit, grant,
  Verified, accepted_as, refused, bad_password, existing, fresh, verify_user, is_open, has_token,
  has_slug, is_empty, Accepted,
}
use crashlens.Accounts.Admin.{
  is_admin, admin_count, last_admin, set_flag, set_instance_admin, toggle_on, write_flag,
  make_admin, promote, would_orphan_instance,
}
use crashlens.Accounts.Admin.Last.{set_instance_admin-keeps}
use crashlens.Accounts.Soundness.{
  Differ, UsersApart, MembersApart, IsSound, UsersApart-append, MembersApart-append,
  UsersApart-update_where, any-update_where,
}
use Writes.{
  authenticate-IsSound, make_admin-IsSound, set_instance_admin-IsSound, signup-IsSound,
  create_invite-IsSound,
}
use Invites.{accept_invite-IsSound}

module _ (c : Crypto) where
  -- A request that its dependencies let through, or the command. The acting user is the one that
  -- `get_current_user` has loaded.
  pub data Step : Instance → Instance → Type 0 where
    sign_up :
        (now : ℕ) (salt token email password org_name : String) (s : Instance)
        → Step s (signup c now salt token email password org_name s).1
    sign_in :
        (now : ℕ) (email password : String) (s : Instance)
        → Step s (authenticate c now email password s).1
    invite :
        (now org_id : ℕ) (token email role : String) (acting : User) (s : Instance)
        → load_user_by_id acting.id s ≡ some acting
        → is_some (require_org_admin org_id acting s) ≡ true
        → Step s (create_invite c now org_id token email role (some acting.id) s).1
    accept :
        (now : ℕ) (salt token email password : String) (s : Instance)
        → Step s (accept_invite c now salt token email password s).1
    toggle :
        (target : ℕ) (enabled : Bool) (acting : User) (s : Instance)
        → load_user_by_id acting.id s ≡ some acting
        → require_instance_admin acting ≡ some acting
        → Step s (set_instance_admin target enabled acting.id s).1
    command : (email : String) (s : Instance) → Step s (make_admin email s).1

  pub data Reachable : Instance → Type 0 where
    installed : (next_id : ℕ) → Reachable (empty_instance next_id)
    after : (s t : Instance) → Reachable s → Step s t → Reachable t

  step-IsSound : (s t : Instance) → Step s t → IsSound s → IsSound t
  step-IsSound _ _ (sign_up now salt token email password org_name s) v =
      signup-IsSound c now salt token email password org_name s v
  step-IsSound _ _ (sign_in now email password s) v = authenticate-IsSound c now email password s v
  step-IsSound _ _ (invite now org_id token email role acting s found _) v =
      create_invite-IsSound c now org_id token email role acting s found v
  step-IsSound _ _ (accept now salt token email password s) v =
      accept_invite-IsSound c now salt token email password s v
  step-IsSound _ _ (toggle target enabled acting s found admin) v =
      set_instance_admin-IsSound target enabled acting s found admin v
  step-IsSound _ _ (command email s) v = make_admin-IsSound email s v

  -- From the empty instance on, whatever requests are served, one at a time: users differ in their ids
  -- and in their addresses, a user has at most one membership of an organisation, the ids in use are
  -- below the next one, and once there is a user or an invite there is an instance administrator.
  pub reachable-IsSound : (s : Instance) → Reachable s → IsSound s
  reachable-IsSound _ (installed next_id) = record {
    users_apart = tt;
    old_users = tt;
    members_apart = tt;
    old_members = tt;
    administered = inl (refl, refl);
  }
  reachable-IsSound _ (after t s past step) = step-IsSound t s step (reachable-IsSound t past)
