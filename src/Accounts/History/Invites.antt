-- ===== src/Accounts/History/Invites.antt =====
-- `accept_invite` of server/app/accounts.py keeps the invariant of the accounts.
use crashlens.Base.{
  ℕ, ◌+◌, ◌<◌, ◌≡◌, inl, inr, refl, String, Bool, true, false, Option, none, some, List, [], ◌∷◌,
  All, All-append, All-imp, any, find_if, find_if-All, nat_eq, string_eq, arith, Bool-cases,
  if_both,
}
use crashlens.Accounts.Users.{
  Crypto, User, Membership, Invite, Instance, has_email, of_member, validate_password,
}
use crashlens.Accounts.Signup.{
  new_user, accept_invite, accept_with, join, join_as, joined_rows, with_user, grant, accepted_as,
  verify_user, is_open, has_token, Accepted,
}
use crashlens.Accounts.Admin.{is_admin}
use crashlens.Accounts.Soundness.{MembersApart, IsSound, UsersApart-append, MembersApart-append}
use crashlens.Accounts.History.Writes.{Administered, differs, added, committed}

grant-apart :
    (org_id user_id : ℕ) (role : String) (members : List Membership)
    → MembersApart members
    → MembersApart (grant org_id user_id role members)
grant-apart org_id user_id role members h =
    if_both MembersApart (any (of_member user_id org_id) members) _ _ (λ _. h)
      (λ new. MembersApart-append members _ h new)

grant-old :
    (org_id user_id next : ℕ) (role : String) (members : List Membership)
    → user_id < next
    → All (λ (m : Membership). m.user_id < next) members
    → All (λ (m : Membership). m.user_id < next + 1) (grant org_id user_id role members)
grant-old org_id user_id next role members old h =
    let older =
      All-imp _ (λ (m : Membership). m.user_id < next + 1) (λ m h. omega arith) members h in
    if_both (All (λ (m : Membership). m.user_id < next + 1))
      (any (of_member user_id org_id) members) _ _ (λ _. older)
      (λ new. All-append _ members (_ ∷ []) older (omega arith, tt))

join_as-IsSound :
    (c : Crypto) (now : ℕ) (email : String) (invite : Invite) (user_id : ℕ) (before s : Instance)
    → IsSound before
    → IsSound s
    → user_id < s.next_id
    → any is_admin s.users ≡ true
    → IsSound (join_as c now email invite user_id before s).1
join_as-IsSound c now email invite user_id before s w v old admin =
    committed (accepted_as email invite user_id) before (joined_rows now invite user_id s) _ w
      (record {
        users_apart = v.users_apart;
        old_users = All-imp _ _ (λ u h. omega arith) s.users v.old_users;
        members_apart = grant-apart invite.org_id user_id invite.role s.memberships v.members_apart;
        old_members =
            grant-old invite.org_id user_id s.next_id invite.role s.memberships old v.old_members;
        administered = inr admin;
      })

with_user-IsSound :
    (c : Crypto) (salt email password : String) (s : Instance)
    → find_if (has_email email) s.users ≡ none
    → any is_admin s.users ≡ true
    → IsSound s
    → IsSound (with_user c salt email password s)
with_user-IsSound c salt email password s unused admin v =
    let n = new_user s.next_id email (c.hash_password salt password) false in
    record {
      users_apart =
          UsersApart-append s.users n v.users_apart
            (differs email (c.hash_password salt password) false s unused v);
      old_users =
          All-append _ s.users (n ∷ []) (All-imp _ _ (λ u h. omega arith) s.users v.old_users)
            (omega arith, tt);
      members_apart = v.members_apart;
      old_members = All-imp _ _ (λ u h. omega arith) s.memberships v.old_members;
      administered = inr (added s.users n admin);
    }

join-IsSound :
    (c : Crypto) (now : ℕ) (salt email password : String) (invite : Invite) (s : Instance)
    (o : Option User)
    → find_if (has_email email) s.users ≡ o
    → any is_admin s.users ≡ true
    → IsSound s
    → IsSound (join c now salt email password invite (verify_user c password o) s).1
join-IsSound c now salt email password invite s none unused admin v =
    elim (Bool-cases (validate_password c password)) [
      | inl good ↦ rw good (
          join_as-IsSound c now email invite s.next_id s (with_user c salt email password s) v
            (with_user-IsSound c salt email password s unused admin v) (omega arith)
            (added s.users _ admin))
      | inr bad ↦ rw bad v
    ]
join-IsSound c now salt email password invite s (some user) found admin v =
    elim (Bool-cases (c.verify_password user.password_hash password)) [
      | inl right ↦ rw right (
          join_as-IsSound c now email invite user.id s s v v
            (find_if-All _ (has_email email) s.users user v.old_users found) admin)
      | inr wrong ↦ rw wrong v
    ]

-- Invites that are there need an administrator.
some_invite :
    (p : Invite → Bool) (invite : Invite) (users : List User) (invites : List Invite)
    → find_if p invites ≡ some invite
    → Administered users invites
    → any is_admin users ≡ true
some_invite p invite users invites found (inl e) = absurd (cc (rw e.1 at found))
some_invite p invite users invites found (inr h) = h

accept_with-IsSound :
    (c : Crypto) (now : ℕ) (salt h email password : String) (o : Option Invite) (s : Instance)
    → find_if (has_token h) s.invites ≡ o
    → IsSound s
    → IsSound (accept_with c now salt email password o s).1
accept_with-IsSound c now salt h email password none s found v = v
accept_with-IsSound c now salt h email password (some invite) s found v =
    if_both (λ (r : Option Accepted × Instance). IsSound r.1) (is_open c now email invite) _ _
      (λ _.
        join-IsSound c now salt email password invite s (find_if (has_email email) s.users) refl
          (some_invite (has_token h) invite s.users s.invites found v.administered) v)
      (λ _. v)

pub accept_invite-IsSound :
    (c : Crypto) (now : ℕ) (salt token email password : String) (s : Instance)
    → IsSound s
    → IsSound (accept_invite c now salt token email password s).1
unfolding accept_invite
accept_invite-IsSound c now salt token email password s v =
    accept_with-IsSound c now salt (c.sha256 token) email password
      (find_if (has_token (c.sha256 token)) s.invites) s refl v
