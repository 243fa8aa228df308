-- ===== src/Accounts/Signup.antt =====
-- `signup`, `create_invite` and `accept_invite` of server/app/accounts.py, one request at a time. The
-- ids, the salt and the tokens that a request draws are parameters of it.
pub mod Once
use Prim.Native.String
use crashlens.Base.{
  ℕ, ◌+◌, ◌*◌, String, Bool, true, false, not, ◌&&◌, ◌||◌, Option, none, some, is_some, List, [],
  ◌∷◌, ◌++◌, any, find_if, update_where, ltb, leb, ◌==◌, nat_eq, string_eq, take_text,
  if◌then◌else◌,
}
use crashlens.Json.{Json, str, Fields, end, field}
use crashlens.Audit.{Entry, log}
use crashlens.Accounts.Users.{
  Crypto, User, Org, Membership, Invite, Instance, has_email, has_id, of_member, validate_password,
}

abbrev pub invite_ttl : ℕ
invite_ttl = 7 * 86_400_000_000

abbrev pub or_default : String → String → String
or_default default s = if s == "" then default else s

unfoldable pub make_org_slug : Crypto → String → String → String
make_org_slug c token org_name =
    String.◌++◌ (take_text 40 (or_default "org" (c.dashed (c.lower org_name))))
      (String.◌++◌ "-" (take_text 8 token))

abbrev pub new_user : ℕ → String → String → Bool → User
new_user id email password_hash admin = record {
  id = id;
  email = email;
  password_hash = password_hash;
  is_instance_admin = admin;
  failed_login_count = 0;
  locked_until = none;
  last_login_at = none;
}

pub record Account : Type 0 where
  pub user_id : ℕ
  pub email : String
  pub org_id : ℕ
  pub role : String
  pub is_instance_admin : Bool

abbrev pub is_empty : List User → Bool
is_empty [] = true
is_empty (u ∷ users) = false

abbrev pub has_slug : String → Org → Bool
has_slug slug org = org.slug == slug

-- The one transaction of a signup with an unused address; none where the slug is taken.
abbrev pub sign_up_as : ℕ → String → String → String → String → Instance → Option Account × Instance
sign_up_as now email password_hash org_name slug s =
    let admin = is_empty s.users in
    let org_id = s.next_id + 1 in
    if any (has_slug slug) s.orgs then (none, s) else (
      some (record {
        user_id = s.next_id;
        email = email;
        org_id = org_id;
        role = "admin";
        is_instance_admin = admin;
      }),
      record s {
        users = s.users ++ new_user s.next_id email password_hash admin ∷ [];
        orgs =
            s.orgs ++ record { id = org_id; name = org_name; slug = slug; created_at = now } ∷ [];
        memberships =
            s.memberships ++ record { org_id = org_id; user_id = s.next_id; role = "admin" } ∷ [];
        next_id = s.next_id + 2;
      },
    )

unfoldable pub signup :
    Crypto → ℕ → String → String → String → String → String → Instance → Option Account × Instance
unfolding make_org_slug
signup c now salt token email password org_name s =
    if is_some (find_if (has_email email) s.users)
    then (none, s)
    else sign_up_as now email (c.hash_password salt password) org_name
        (make_org_slug c token org_name) s

abbrev pub is_valid_role : String → Bool
is_valid_role role = role == "admin" || role == "member"

abbrev pub email_and_role : String → String → Fields
email_and_role email role = field "email" (str email) (field "role" (str role) end)

abbrev pub new_invite : Crypto → ℕ → ℕ → String → String → String → Instance → Invite
new_invite c now org_id raw_token email role s = record {
  id = s.next_id;
  org_id = org_id;
  email = email;
  role = role;
  token_hash = c.sha256 raw_token;
  expires_at = now + invite_ttl;
  accepted_at = none;
}

-- A transaction that ends with the row of the audit log: it commits or rolls back with it.
abbrev pub commit :
    {A : Type 0} → A → Instance → Instance → Option (List Entry) → Option A × Instance
commit a before after none = (none, before)
commit a before after (some audits) = (some a, record after { audits = audits })

abbrev pub invite_entry : String → ℕ → Option ℕ → Invite → Fields → ℕ → Entry
invite_entry action now actor invite payload id = record {
  id = id;
  org_id = invite.org_id;
  actor_user_id = actor;
  action = action;
  target_type = "invite";
  target_id = some invite.id;
  payload = payload;
  created_at = now;
}

abbrev pub invited_rows : Invite → Instance → Instance
invited_rows invite s = record s { invites = s.invites ++ invite ∷ []; next_id = s.next_id + 2 }

-- none is a ValueError. The raw token goes to the caller alone.
unfoldable pub create_invite :
    Crypto → ℕ → ℕ → String → String → String → Option ℕ → Instance → Option Invite × Instance
create_invite c now org_id raw_token email role actor s =
    let invite = new_invite c now org_id raw_token email role s in
    let entry =
      invite_entry "member.invited" now actor invite (email_and_role email role) (s.next_id + 1) in
    if is_valid_role role
    then commit invite s (invited_rows invite s) (log c.lower entry s.audits)
    else (none, s)

abbrev pub has_token : String → Invite → Bool
has_token token_hash invite = invite.token_hash == token_hash

-- The test on the invite that the token finds.
abbrev pub is_open : Crypto → ℕ → String → Invite → Bool
is_open c now email invite =
    not (is_some invite.accepted_at)
    && (ltb now invite.expires_at && c.lower invite.email == c.lower email)

-- The password, on an account that is there or on a new one; `refused` is the uniform error.
pub data Verified : Type 0 where
  refused bad_password : Verified
  existing : ℕ → Verified
  fresh : Verified

abbrev pub verify_user : Crypto → String → Option User → Verified
verify_user c password none = if validate_password c password then fresh else bad_password
verify_user c password (some user) =
    if c.verify_password user.password_hash password then existing user.id else refused

-- `ON CONFLICT DO NOTHING` on the pair of organisation and user.
abbrev pub grant : ℕ → ℕ → String → List Membership → List Membership
grant org_id user_id role memberships =
    if any (of_member user_id org_id) memberships
    then memberships
    else memberships ++ record { org_id = org_id; user_id = user_id; role = role } ∷ []

abbrev pub is_unaccepted : ℕ → Invite → Bool
is_unaccepted id invite = invite.id == id && not (is_some invite.accepted_at)

abbrev pub stamp : ℕ → Invite → Invite
stamp now invite = record invite { accepted_at = some now }

pub record Accepted : Type 0 where
  pub user_id : ℕ
  pub email : String
  pub org_id : ℕ
  pub role : String

abbrev pub joined_rows : ℕ → Invite → ℕ → Instance → Instance
joined_rows now invite user_id s = record s {
  memberships = grant invite.org_id user_id invite.role s.memberships;
  invites = update_where (is_unaccepted invite.id) (stamp now) s.invites;
  next_id = s.next_id + 1;
}

abbrev pub accepted_as : String → Invite → ℕ → Accepted
accepted_as email invite user_id = record {
  user_id = user_id;
  email = email;
  org_id = invite.org_id;
  role = invite.role;
}

abbrev pub join_as :
    Crypto → ℕ → String → Invite → ℕ → Instance → Instance → Option Accepted × Instance
join_as c now email invite user_id before s =
    let entry =
      invite_entry "invite.accepted" now (some user_id) invite (email_and_role email invite.role)
        s.next_id in
    commit (accepted_as email invite user_id) before (joined_rows now invite user_id s)
      (log c.lower entry s.audits)

abbrev pub with_user : Crypto → String → String → String → Instance → Instance
with_user c salt email password s = record s {
  users = s.users ++ new_user s.next_id email (c.hash_password salt password) false ∷ [];
  next_id = s.next_id + 1;
}

abbrev pub join :
    Crypto
    → ℕ
    → String
    → String
    → String
    → Invite
    → Verified
    → Instance
    → Option Accepted × Instance
join c now salt email password invite refused s = (none, s)
join c now salt email password invite bad_password s = (none, s)
join c now salt email password invite (existing user_id) s = join_as c now email invite user_id s s
join c now salt email password invite fresh s =
    join_as c now email invite s.next_id s (with_user c salt email password s)

abbrev pub accept_with :
    Crypto → ℕ → String → String → String → Option Invite → Instance → Option Accepted × Instance
accept_with c now salt email password none s = (none, s)
accept_with c now salt email password (some invite) s =
    if is_open c now email invite
    then join c now salt email password invite
        (verify_user c password (find_if (has_email email) s.users)) s
    else (none, s)

-- none: the uniform error of the token, or the password policy's.
unfoldable pub accept_invite :
    Crypto → ℕ → String → String → String → String → Instance → Option Accepted × Instance
accept_invite c now salt token email password s =
    accept_with c now salt email password (find_if (has_token (c.sha256 token)) s.invites) s
