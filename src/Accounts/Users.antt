-- ===== src/Accounts/Users.antt =====
-- The tables of the accounts, and the reads of server/app/accounts.py and server/app/auth.py.
use crashlens.Base.{
  ℕ, String, Bool, not, ◌&&◌, Option, none, some, List, [], ◌∷◌, any, find_if, count, ltb, leb,
  ◌==◌, nat_eq, string_eq, order_by, if◌then◌else◌,
}
use mathlib.Core.Option
use mathlib.Core.List
use crashlens.Audit.{Entry}

-- What the code takes from Python, argon2 and hashlib: a salted hash and its check, SHA-256 of a
-- token, `str.lower`, and a name with every run of characters outside a-z and 0-9 made a dash, with no
-- dash at its ends.
pub record Crypto : Type 0 where
  pub hash_password : String → String → String
  pub verify_password : String → String → Bool
  pub sha256 : String → String
  pub lower : String → String
  pub dashed : String → String
  -- Membership in `COMMON_PASSWORDS`.
  pub is_common : String → Bool

pub record User : Type 0 where
  pub id : ℕ
  pub email : String
  pub password_hash : String
  pub is_instance_admin : Bool
  pub failed_login_count : ℕ
  pub locked_until : Option ℕ
  pub last_login_at : Option ℕ

pub record Org : Type 0 where
  pub id : ℕ
  pub name : String
  pub slug : String
  pub created_at : ℕ

pub record Membership : Type 0 where
  pub org_id : ℕ
  pub user_id : ℕ
  pub role : String

pub record Invite : Type 0 where
  pub id : ℕ
  pub org_id : ℕ
  pub email : String
  pub role : String
  pub token_hash : String
  pub expires_at : ℕ
  pub accepted_at : Option ℕ

-- The rows of the whole instance.
pub record Instance : Type 0 where
  pub users : List User
  pub orgs : List Org
  pub memberships : List Membership
  pub invites : List Invite
  pub audits : List Entry
  -- The ids that `uuid4` draws are new: below this one all are in use.
  pub next_id : ℕ

-- The tables after the migrations.
abbrev pub empty_instance : ℕ → Instance
empty_instance next_id = record {
  users = [];
  orgs = [];
  memberships = [];
  invites = [];
  audits = [];
  next_id = next_id;
}

abbrev pub has_email : String → User → Bool
has_email email user = user.email == email

abbrev pub has_id : ℕ → User → Bool
has_id id user = user.id == id

abbrev pub of_member : ℕ → ℕ → Membership → Bool
of_member user_id org_id m = m.user_id == user_id && m.org_id == org_id

unfoldable pub load_user_by_email : String → Instance → Option User
load_user_by_email email s = find_if (has_email email) s.users

unfoldable pub load_user_by_id : ℕ → Instance → Option User
load_user_by_id id s = find_if (has_id id) s.users

-- `{user_id: email}` of the ids that are there, read with `dict.get`.
unfoldable pub load_users_by_ids : List ℕ → Instance → ℕ → Option String
load_users_by_ids ids s id =
    if any (λ i. i == id) ids
    then Option.map (λ (u : User). u.email) (find_if (has_id id) s.users)
    else none

pub record OrgRole : Type 0 where
  pub id : ℕ
  pub name : String
  pub slug : String
  pub role : String

-- The inner join of the memberships with their organisations.
abbrev pub role_in : List Membership → ℕ → Org → List OrgRole
role_in [] user_id o = []
role_in (m ∷ memberships) user_id o =
    let others = role_in memberships user_id o in
    if of_member user_id o.id m
    then record { id = o.id; name = o.name; slug = o.slug; role = m.role } ∷ others
    else others

abbrev pub roles_in : List Membership → ℕ → List Org → List OrgRole
roles_in memberships user_id [] = []
roles_in memberships user_id (o ∷ orgs) =
    List.◌++◌ (role_in memberships user_id o) (roles_in memberships user_id orgs)

unfoldable pub list_user_orgs : ℕ → Instance → List OrgRole
list_user_orgs user_id s =
    roles_in s.memberships user_id (order_by (λ a b. leb a.created_at b.created_at) s.orgs)

unfoldable pub verify_membership : ℕ → ℕ → Instance → Option String
verify_membership user_id org_id s =
    Option.map (λ (m : Membership). m.role) (find_if (of_member user_id org_id) s.memberships)

-- `get_current_user`: `decode` is the decoding of the bearer token, none where it raises. none is the
-- 401, as it is where there is no header.
unfoldable pub get_current_user : (String → Option ℕ) → Option String → Instance → Option User
unfolding load_user_by_id
get_current_user decode none s = none
get_current_user decode (some token) s = elim (decode token) [
  | none ↦ none
  | some user_id ↦ load_user_by_id user_id s
]

-- The dependencies of server/app/auth.py on a user who is authenticated; none is the 403.
unfoldable pub require_org_member : ℕ → User → Instance → Option String
unfolding verify_membership
require_org_member org_id user s = verify_membership user.id org_id s

unfoldable pub require_org_admin : ℕ → User → Instance → Option String
unfolding verify_membership
require_org_admin org_id user s = elim (verify_membership user.id org_id s) [
  | none ↦ none
  | some role ↦ if role == "admin" then some role else none
]

unfoldable pub require_instance_admin : User → Option User
require_instance_admin user = if user.is_instance_admin then some user else none

abbrev pub password_min_length : ℕ
password_min_length = 10

-- true where the policy takes the password.
unfoldable pub validate_password : Crypto → String → Bool
validate_password c password =
    not (ltb (count password) password_min_length) && not (c.is_common (c.lower password))
