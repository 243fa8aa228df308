-- ===== src/Accounts/Signup/Once.antt =====
-- An invite of server/app/accounts.py is used at most once.
use crashlens.Base.{
  ℕ, ◌≡◌, refl, String, Bool, true, false, Option, none, some, is_some, List, [], ◌∷◌, any,
  any-append, find_if, if_both, found_of_any, update_where, nat_eq, string_eq, arith, Bool-cases,
  inl, inr,
}
use crashlens.Audit.{Entry}
use crashlens.Accounts.Users.{
  Crypto, Membership, Invite, Instance, has_email, of_member, verify_membership,
}
use crashlens.Accounts.Signup.{
  with_user, accepted_as, joined_rows, Accepted, accept_invite, accept_with, join, grant, commit,
  has_token, is_open, is_unaccepted, stamp, Verified, refused, bad_password, existing, fresh,
  verify_user,
}

find_if-update_where {ℓ} :
    {A : Type ℓ} (p q : A → Bool) (f : A → A) (xs : List A) (x : A)
    → ((y : A) → p (f y) ≡ p y)
    → find_if p xs ≡ some x
    → q x ≡ true
    → find_if p (update_where q f xs) ≡ some (f x)
unfolding update_where
find_if-update_where p q f [] x same e h = cc
find_if-update_where p q f (y ∷ xs) x same e h = elim (Bool-cases (p y)) [
  | inl hit ↦ let first : y ≡ x = ground arith in ground (arith, same y)
  | inr miss ↦
      let rest = find_if-update_where p q f xs x same (ground arith) h in ground (arith, same y)
]

granted :
    (org_id user_id : ℕ) (role : String) (memberships : List Membership)
    → any (of_member user_id org_id) (grant org_id user_id role memberships) ≡ true
granted org_id user_id role memberships =
    elim (Bool-cases (any (of_member user_id org_id) memberships)) [
      | inl old ↦ rw old old
      | inr new ↦ rw new (
          ground (
            arith,
            any-append (of_member user_id org_id) memberships
                (record { org_id = org_id; user_id = user_id; role = role } ∷ []),
          ))
    ]

-- The token's invite is stamped, and the membership is there.
abbrev Joined : String → ℕ → Invite → Option Accepted × Instance → Type 0
Joined h now invite (none, s) = Unit {0}
Joined h now invite (some a, s) =
    (find_if (has_token h) s.invites ≡ some (stamp now invite))
    × (any (of_member a.user_id a.org_id) s.memberships ≡ true)

joined :
    (now : ℕ) (h email : String) (invite : Invite) (user_id : ℕ) (before s : Instance)
    (o : Option (List Entry))
    → find_if (has_token h) s.invites ≡ some invite
    → is_some invite.accepted_at ≡ false
    → Joined h now invite
        (commit (accepted_as email invite user_id) before (joined_rows now invite user_id s) o)
joined now h email invite user_id before s none found unused = tt
joined now h email invite user_id before s (some audits) found unused = (
  find_if-update_where (has_token h) (is_unaccepted invite.id) (stamp now) s.invites invite
      (λ y. refl) found (ground arith),
  granted invite.org_id user_id invite.role s.memberships,
)

accepted_once :
    (c : Crypto) (now : ℕ) (salt h email password : String) (invite : Invite) (s : Instance)
    (v : Verified)
    → find_if (has_token h) s.invites ≡ some invite
    → is_some invite.accepted_at ≡ false
    → Joined h now invite (join c now salt email password invite v s)
accepted_once c now salt h email password invite s refused found unused = tt
accepted_once c now salt h email password invite s bad_password found unused = tt
accepted_once c now salt h email password invite s (existing user_id) found unused =
    joined now h email invite user_id s s _ found unused
accepted_once c now salt h email password invite s fresh found unused =
    joined now h email invite s.next_id s (with_user c salt email password s) _ found unused

abbrev Used : String → Option Accepted × Instance → Type 0
Used h (none, s) = Unit {0}
Used h (some a, s) =
    ((invite : Invite) × ((find_if (has_token h) s.invites ≡ some invite)
        × (is_some invite.accepted_at ≡ true)))
    × (any (of_member a.user_id a.org_id) s.memberships ≡ true)

Used-of :
    (h : String) (now : ℕ) (invite : Invite) (r : Option Accepted × Instance)
    → Joined h now invite r
    → Used h r
Used-of h now invite (none, s) j = tt
Used-of h now invite (some a, s) j = ((stamp now invite, (j.0, refl)), j.1)

used :
    (c : Crypto) (now : ℕ) (salt h email password : String) (s : Instance) (o : Option Invite)
    → find_if (has_token h) s.invites ≡ o
    → Used h (accept_with c now salt email password o s)
used c now salt h email password s none found = tt
used c now salt h email password s (some invite) found =
    if_both (Used h) (is_open c now email invite) _ _
      (λ is. Used-of h now invite _ (
        accepted_once c now salt h email password invite s
          (verify_user c password (find_if (has_email email) s.users)) found (ground arith)))
      (λ _. tt)

refused_again :
    (c : Crypto) (now : ℕ) (salt email password h : String) (s : Instance) (invite : Invite)
    → find_if (has_token h) s.invites ≡ some invite
    → is_some invite.accepted_at ≡ true
    → accept_with c now salt email password (find_if (has_token h) s.invites) s ≡ (none, s)
refused_again c now salt email password h s invite found accepted =
    let shut : is_open c now email invite ≡ false = rw accepted refl in rw (found, shut) refl

-- An accepted invite makes its user a member of the organisation, and from then on its token is
-- refused, whatever the time, the address and the password, with no change of any row.
pub accept_invite_once :
    (c : Crypto) (now later : ℕ) (salt salt' token email email' password password' : String)
    (s : Instance) (a : Accepted)
    → (accept_invite c now salt token email password s).0 ≡ some a
    → let s' = (accept_invite c now salt token email password s).1 in
      (is_some (verify_membership a.user_id a.org_id s') ≡ true)
      × (accept_invite c later salt' token email' password' s' ≡ (none, s'))
unfolding accept_invite verify_membership
accept_invite_once c now later salt salt' token email email' password password' s a e =
    go (accept_invite c now salt token email password s) e
      (used c now salt (c.sha256 token) email password s _ refl)
  where
    go :
        (r : Option Accepted × Instance)
        → r.0 ≡ some a
        → Used (c.sha256 token) r
        → (is_some (verify_membership a.user_id a.org_id r.1) ≡ true)
          × (accept_invite c later salt' token email' password' r.1 ≡ (none, r.1))
    go (none, t) h u = cc
    go (some b, t) h u =
        let same : b ≡ a = cc in
        let (m, e) = found_of_any (of_member b.user_id b.org_id) t.memberships u.1 in
        let (invite, (there, accepted)) = u.0 in
        rw (← same) (
          rw e refl,
          refused_again c later salt' email' password' (c.sha256 token) t invite there accepted,
        )
