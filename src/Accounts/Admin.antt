-- ===== src/Accounts/Admin.antt =====
-- The instance administrators: `set_instance_admin` and `list_orgs` of server/app/admin.py and
-- `make_admin` of server/app/cli.py.
pub mod Last
use crashlens.Base.{
  ℕ, ◌-◌, ◌*◌, String, Bool, true, false, not, map, ◌&&◌, ◌||◌, Option, none, some, List, [], ◌∷◌,
  count_if, find_if, update_where, length, take, drop, keep_if, ltb, leb, min, ◌==◌, nat_eq,
  string_eq, order_by, if◌then◌else◌,
}
use crashlens.Workspace.{Workspace, Project}
use crashlens.Accounts.Users.{User, Instance, Org, Membership, has_id, has_email}

unfoldable pub would_orphan_instance : Bool → Bool → ℕ → Bool
would_orphan_instance enabled is_self admin_count = not enabled && (is_self && leb admin_count 1)

pub data Toggled : Type 0 where
  last_admin no_such_user : Toggled
  toggled : User → Toggled

abbrev pub is_admin : User → Bool
is_admin user = user.is_instance_admin

-- `SELECT count(*) FROM users WHERE is_instance_admin = true`
abbrev pub admin_count : Instance → ℕ
admin_count s = count_if is_admin s.users

abbrev pub set_flag : Bool → User → User
set_flag enabled user = record user { is_instance_admin = enabled }

abbrev pub write_flag : ℕ → Bool → Option User → Instance → Toggled × Instance
write_flag target enabled none s = (no_such_user, s)
write_flag target enabled (some user) s = (
  toggled (set_flag enabled user),
  record s { users = update_where (has_id target) (set_flag enabled) s.users },
)

-- The guard, on the count that the transaction has read, and the UPDATE.
unfoldable pub toggle_on : ℕ → ℕ → Bool → ℕ → Instance → Toggled × Instance
unfolding would_orphan_instance
toggle_on count target enabled acting s =
    if would_orphan_instance enabled (target == acting) count
    then (last_admin, s)
    else write_flag target enabled (find_if (has_id target) s.users) s

-- A toggle that runs alone.
unfoldable pub set_instance_admin : ℕ → Bool → ℕ → Instance → Toggled × Instance
unfolding toggle_on
set_instance_admin target enabled acting s = toggle_on (admin_count s) target enabled acting s

pub record OrgRow : Type 0 where
  pub org : Org
  pub member_count : ℕ
  pub project_count : ℕ

pub record OrgPage : Type 0 where
  pub orgs : List OrgRow
  pub total : ℕ
  pub page : ℕ
  pub per_page : ℕ

abbrev pub org_row : Instance → Workspace → Org → OrgRow
org_row s w o = record {
  org = o;
  member_count = count_if (λ (m : Membership). m.org_id == o.id) s.memberships;
  project_count = count_if (λ (p : Project). p.org_id == o.id) w.projects;
}

abbrev pub newest_org : Org → Org → Bool
newest_org a b = ltb b.created_at a.created_at || a.created_at == b.created_at && leb a.id b.id

unfoldable pub list_orgs : ℕ → ℕ → Instance → Workspace → OrgPage
list_orgs page per_page s w = record {
  orgs =
      map (org_row s w) (take per_page (drop ((page - 1) * per_page) (order_by newest_org s.orgs)));
  total = length s.orgs;
  page = page;
  per_page = per_page;
}

-- The operator's way back: the exit code, and the rows.
abbrev pub promote : Option User → String → Instance → ℕ × Instance
promote none email s = (1, s)
promote (some user) email s =
    (0, record s { users = update_where (has_email email) (set_flag true) s.users })

unfoldable pub make_admin : String → Instance → ℕ × Instance
make_admin email s = promote (find_if (has_email email) s.users) email s
