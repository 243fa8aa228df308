-- ===== src/Accounts/History/Writes.antt =====
-- The requests of server/app/accounts.py and server/app/admin.py, and the command of server/app/cli.py,
-- keep the invariant of the accounts.
use crashlens.Base.{
  ℕ, ◌+◌, ◌<◌, ◌≡◌, ◌⊎◌, inl, inr, refl, String, Bool, true, false, Option, none, some, List, [],
  ◌∷◌, ◌++◌, All, All-append, All-imp, All-update_where, All-zip, any, any-append, find_if,
  find_if-none, update_where, ◌==◌, nat_eq, string_eq, eq_iff, arith, Option-cases, if_both,
  if◌then◌else◌,
}
use crashlens.Audit.{Entry}
use crashlens.Accounts.Users.{
  Crypto, User, Membership, Invite, Instance, has_email, has_id, of_member, load_user_by_id,
  require_instance_admin,
}
use crashlens.Accounts.Login.{authenticate, attempt, log_in, flush}
use crashlens.Accounts.Signup.{
  Account, is_valid_role, signup, make_org_slug, sign_up_as, new_user, create_invite, new_invite,
  invited_rows, commit, has_slug, is_empty,
}
use crashlens.Accounts.Admin.{
  is_admin, admin_count, last_admin, set_flag, set_instance_admin, toggle_on, write_flag,
  make_admin, promote, would_orphan_instance,
}
use crashlens.Accounts.Admin.Last.{set_instance_admin-keeps}
use crashlens.Accounts.Soundness.{
  Differ, IsSound, UsersApart-append, MembersApart-append, UsersApart-update_where,
  any-update_where,
}

abbrev pub Administered : List User → List Invite → Type 0
Administered users invites = ((users ≡ []) × (invites ≡ [])) ⊎ (any is_admin users ≡ true)

-- A write of the users that leaves ids and addresses alone.
pub rewritten :
    (p : User → Bool) (f : User → User) (s : Instance)
    → ((u : User) → ((f u).id ≡ u.id) × ((f u).email ≡ u.email))
    → Administered (update_where p f s.users) s.invites
    → IsSound s
    → IsSound (record s { users = update_where p f s.users })
rewritten p f s same admin v = record {
  users_apart = UsersApart-update_where p f s.users same v.users_apart;
  old_users =
      All-update_where _ _ p f (λ u h _. ground (arith, same u)) (λ u h _. h) s.users v.old_users;
  members_apart = v.members_apart;
  old_members = v.old_members;
  administered = admin;
}

pub kept_admin :
    (p : User → Bool) (f : User → User) (users : List User) (invites : List Invite)
    → ((u : User) → is_admin u ≡ true → is_admin (f u) ≡ true)
    → Administered users invites
    → Administered (update_where p f users) invites
unfolding update_where
kept_admin p f users invites keeps (inl (none_yet, no_invites)) = inl (rw none_yet refl, no_invites)
kept_admin p f users invites keeps (inr h) = inr (any-update_where is_admin p f users keeps h)

-- A new user beside the others.
pub differs :
    (email password_hash : String) (admin : Bool) (s : Instance)
    → find_if (has_email email) s.users ≡ none
    → IsSound s
    → All (λ u. Differ u (new_user s.next_id email password_hash admin)) s.users
differs email password_hash admin s unused v =
    All-imp _ _
      (λ u h. (λ e. ground arith, ground (arith, eq_iff u.email email, eq_iff email u.email)))
      s.users (All-zip _ _ s.users v.old_users (find_if-none (has_email email) s.users unused))

-- More users, the first ones as they were.
pub added :
    (users : List User) (n : User)
    → any is_admin users ≡ true
    → any is_admin (users ++ n ∷ []) ≡ true
added users n h = rw (any-append is_admin users (n ∷ []), h) refl

pub authenticate-IsSound :
    (c : Crypto) (now : ℕ) (email password : String) (s : Instance)
    → IsSound s
    → IsSound (authenticate c now email password s).1
unfolding authenticate
authenticate-IsSound c now email password s v = go (find_if (has_email email) s.users)
  where
    go : (o : Option User) → IsSound (log_in c now password o s).1
    go none = v
    go (some u) =
        let row = (attempt c now password u).1 in
        rewritten (has_id u.id) (flush row) s (λ w. (refl, refl))
          (kept_admin (has_id u.id) (flush row) s.users s.invites (λ w h. h) v.administered) v

pub make_admin-IsSound :
    (email : String) (s : Instance) → IsSound s → IsSound (make_admin email s).1
unfolding make_admin
make_admin-IsSound email s v = go (find_if (has_email email) s.users)
  where
    go : (o : Option User) → IsSound (promote o email s).1
    go none = v
    go (some u) =
        rewritten (has_email email) (set_flag true) s (λ w. (refl, refl))
          (kept_admin (has_email email) (set_flag true) s.users s.invites (λ w h. refl)
            v.administered)
          v

pub set_instance_admin-IsSound :
    (target : ℕ) (enabled : Bool) (acting : User) (s : Instance)
    → load_user_by_id acting.id s ≡ some acting
    → require_instance_admin acting ≡ some acting
    → IsSound s
    → IsSound (set_instance_admin target enabled acting.id s).1
unfolding set_instance_admin toggle_on
set_instance_admin-IsSound target enabled acting s found admin v =
    go (would_orphan_instance enabled (target == acting.id) (admin_count s))
      (find_if (has_id target) s.users)
      (set_instance_admin-keeps target enabled acting s v.users_apart found admin)
  where
    go :
        (b : Bool) (o : Option User)
        → let s' = (if b then (last_admin, s) else write_flag target enabled o s).1 in
          (any is_admin s'.users ≡ true)
          → IsSound (if b then (last_admin, s) else write_flag target enabled o s).1
    go true o h = v
    go false none h = v
    go false (some u) h =
        rewritten (has_id target) (set_flag enabled) s (λ w. (refl, refl)) (inr h) v

first_admin :
    (id : ℕ) (email hash : String) (users : List User) (invites : List Invite)
    → Administered users invites
    → any is_admin (users ++ new_user id email hash (is_empty users) ∷ []) ≡ true
first_admin id email hash [] invites h = refl
first_admin id email hash (u ∷ users) invites (inl e) = cc
first_admin id email hash (u ∷ users) invites (inr h) =
    added (u ∷ users) (new_user id email hash false) h

no_member :
    (user_id org_id : ℕ) (members : List Membership)
    → All (λ (m : Membership). m.user_id < user_id) members
    → any (of_member user_id org_id) members ≡ false
no_member user_id org_id [] h = refl
no_member user_id org_id (m ∷ members) h =
    let rest = no_member user_id org_id members h.1 in ground arith

sign_up_as-IsSound :
    (now : ℕ) (email hash org_name slug : String) (s : Instance)
    → find_if (has_email email) s.users ≡ none
    → IsSound s
    → IsSound (sign_up_as now email hash org_name slug s).1
sign_up_as-IsSound now email hash org_name slug s unused v =
    let n = new_user s.next_id email hash (is_empty s.users) in
    let m : Membership = record { org_id = s.next_id + 1; user_id = s.next_id; role = "admin" } in
    if_both (λ (r : Option Account × Instance). IsSound r.1) (any (has_slug slug) s.orgs) _ _
      (λ _. v)
      (λ _. record {
        users_apart =
            UsersApart-append s.users n v.users_apart
              (differs email hash (is_empty s.users) s unused v);
        old_users =
            All-append _ s.users (n ∷ []) (All-imp _ _ (λ u h. omega arith) s.users v.old_users)
              (omega arith, tt);
        members_apart =
            MembersApart-append s.memberships m v.members_apart
              (no_member s.next_id (s.next_id + 1) s.memberships v.old_members);
        old_members =
            All-append _ s.memberships (m ∷ [])
              (All-imp _ _ (λ u h. omega arith) s.memberships v.old_members) (omega arith, tt);
        administered = inr (first_admin s.next_id email hash s.users s.invites v.administered);
      })

pub signup-IsSound :
    (c : Crypto) (now : ℕ) (salt token email password org_name : String) (s : Instance)
    → IsSound s
    → IsSound (signup c now salt token email password org_name s).1
unfolding signup
signup-IsSound c now salt token email password org_name s v =
    elim (Option-cases (find_if (has_email email) s.users)) [
      | inl unused ↦ rw unused (
          sign_up_as-IsSound now email (c.hash_password salt password) org_name
            (make_org_slug c token org_name) s unused v)
      | inr (u, taken) ↦ rw taken v
    ]

-- A transaction that commits with its audit row, or not at all.
pub committed :
    {A : Type 0} (a : A) (before after : Instance) (o : Option (List Entry))
    → IsSound before
    → IsSound after
    → IsSound (commit a before after o).1
committed a before after none v w = v
committed a before after (some audits) v w = record {
  users_apart = w.users_apart;
  old_users = w.old_users;
  members_apart = w.members_apart;
  old_members = w.old_members;
  administered = w.administered;
}

-- Users who are there, whatever the invites.
some_user :
    (id : ℕ) (u : User) (users : List User) (invites : List Invite)
    → find_if (has_id id) users ≡ some u
    → Administered users invites
    → any is_admin users ≡ true
some_user id u users invites found (inl e) = absurd (cc (rw e.0 at found))
some_user id u users invites found (inr h) = h

pub create_invite-IsSound :
    (c : Crypto) (now org_id : ℕ) (token email role : String) (acting : User) (s : Instance)
    → load_user_by_id acting.id s ≡ some acting
    → IsSound s
    → IsSound (create_invite c now org_id token email role (some acting.id) s).1
unfolding create_invite load_user_by_id
create_invite-IsSound c now org_id token email role acting s found v =
    if_both (λ (r : Option Invite × Instance). IsSound r.1) (is_valid_role role) _ _
      (λ _.
        let invite = new_invite c now org_id token email role s in
        committed invite s (invited_rows invite s) _ v (record {
          users_apart = v.users_apart;
          old_users = All-imp _ _ (λ u h. omega arith) s.users v.old_users;
          members_apart = v.members_apart;
          old_members = All-imp _ _ (λ u h. omega arith) s.memberships v.old_members;
          administered = inr (some_user acting.id acting s.users s.invites found v.administered);
        }))
      (λ _. v)
