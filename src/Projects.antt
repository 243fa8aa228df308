-- ===== src/Projects.antt =====
-- server/app/projects.py: projects and DSN keys, and the list of the members.
pub mod Keys
pub mod Refinement
pub mod Ingest
mod Tests
use Prim.Native.String
use mathlib.Core.Option
use mathlib.Core.List
use crashlens.Base.{
  ℕ, String, Bool, true, false, not, ◌&&◌, Option, none, some, List, [], ◌∷◌, ◌++◌, any, find_if,
  keep_if, update_where, order_by, map, leb, ◌==◌, nat_eq, string_eq, take_text, if◌then◌else◌,
}
use crashlens.Json.{Json, str, int, Fields, end, field}
use crashlens.Json.Numbers.{pos}
use crashlens.Accounts.Users.{Crypto, Membership, Instance, load_users_by_ids}
use crashlens.Accounts.Signup.{or_default}
use crashlens.Workspace.{Project, Key, Channel, Workspace, Act, is_project, entry, audited}

unfoldable pub make_project_slug : Crypto → String → String → String
make_project_slug c token name =
    String.◌++◌ (take_text 40 (or_default "project" (c.dashed (c.lower name))))
      (String.◌++◌ "-" (take_text 8 token))

abbrev pub newest_project : Project → Project → Bool
newest_project a b = leb b.created_at a.created_at

unfoldable pub list_projects : ℕ → Workspace → List Project
list_projects org_id w =
    order_by newest_project (keep_if (λ (p : Project). p.org_id == org_id) w.projects)

-- `(org_id, slug)` is unique.
abbrev pub same_slug : ℕ → String → Project → Bool
same_slug org_id slug p = p.org_id == org_id && p.slug == slug

abbrev pub new_project : Act → String → String → Option String → ℕ → Project
new_project act name slug platform rate = record {
  id = act.new_id;
  org_id = act.org_id;
  name = name;
  slug = slug;
  platform = platform;
  sampling_rate = rate;
  created_at = act.now;
}

-- `rate` is the column's default, the whole of the scale. none is a slug that is taken.
unfoldable pub create_project :
    Crypto → Act → ℕ → String → String → Option String → Workspace → Option Project × Workspace
unfolding make_project_slug
create_project c act rate token name platform w =
    let slug = make_project_slug c token name in
    let project = new_project act name slug platform rate in
    let e =
      entry act "project.created" "project" act.new_id
        (field "name" (str name) (field "slug" (str slug) end)) in
    if any (same_slug act.org_id slug) w.projects
    then (none, w)
    else audited c.lower e project w (record w { projects = w.projects ++ project ∷ [] })

abbrev pub with_rate : ℕ → Project → Project
with_rate rate p = record p { sampling_rate = rate }

abbrev pub update_found :
    Crypto → Act → ℕ → ℕ → Option Project → Workspace → Option Project × Workspace
update_found c act project_id rate none w = (none, w)
update_found c act project_id rate (some p) w =
    audited c.lower
      (entry act "sampling.updated" "project" project_id
        (field "sampling_rate" (int (pos rate)) end))
      (with_rate rate p) w
      (record w {
        projects = update_where (is_project act.org_id project_id) (with_rate rate) w.projects;
      })

unfoldable pub update_project_sampling :
    Crypto → Act → ℕ → ℕ → Workspace → Option Project × Workspace
update_project_sampling c act project_id rate w =
    update_found c act project_id rate (find_if (is_project act.org_id project_id) w.projects) w

pub record Detail : Type 0 where
  pub project : Project
  pub keys : List Key

abbrev pub newest_key : Key → Key → Bool
newest_key a b = leb b.created_at a.created_at

abbrev pub is_live_of : ℕ → ℕ → Key → Bool
is_live_of org_id project_id k = k.org_id == org_id && (k.project_id == project_id && k.is_active)

unfoldable pub get_project : ℕ → ℕ → Workspace → Option Detail
get_project org_id project_id w =
    Option.map
      (λ p. record {
        project = p;
        keys = order_by newest_key (keep_if (is_live_of org_id project_id) w.keys);
      })
      (find_if (is_project org_id project_id) w.projects)

-- The foreign keys of `dsn_keys` and of `alert_channels` cascade.
abbrev pub is_of : ℕ → Option ℕ → Bool
is_of project_id none = false
is_of project_id (some id) = id == project_id

abbrev pub without_project : ℕ → Workspace → Workspace
without_project project_id w = record w {
  projects = keep_if (λ (p : Project). not (p.id == project_id)) w.projects;
  keys = keep_if (λ (k : Key). not (k.project_id == project_id)) w.keys;
  channels = keep_if (λ (ch : Channel). not (is_of project_id ch.project_id)) w.channels;
}

abbrev pub delete_found : Crypto → Act → ℕ → Option Project → Workspace → Option Project × Workspace
delete_found c act project_id none w = (none, w)
delete_found c act project_id (some p) w =
    audited c.lower
      (entry act "project.deleted" "project" project_id (field "name" (str p.name) end)) p w
      (without_project project_id w)

-- The deleted row; none is the answer False.
unfoldable pub delete_project : Crypto → Act → ℕ → Workspace → Option Project × Workspace
delete_project c act project_id w =
    delete_found c act project_id (find_if (is_project act.org_id project_id) w.projects) w

abbrev pub new_key : Act → ℕ → String → Key
new_key act project_id public_key = record {
  id = act.new_id;
  org_id = act.org_id;
  project_id = project_id;
  public_key = public_key;
  is_active = true;
  revoked_at = none;
  created_at = act.now;
}

abbrev pub has_public_key : String → Key → Bool
has_public_key public_key k = k.public_key == public_key

abbrev pub mint :
    Crypto → (ℕ → String) → Act → ℕ → String → Option Project → Workspace → Option Key × Workspace
mint c text act project_id public_key none w = (none, w)
mint c text act project_id public_key (some p) w =
    let key = new_key act project_id public_key in
    let e =
      entry act "key.created" "dsn_key" act.new_id
        (field "project_id" (str (text project_id)) (field "public_key" (str public_key) end)) in
    if any (has_public_key public_key) w.keys
    then (none, w)
    else audited c.lower e key w (record w { keys = w.keys ++ key ∷ [] })

-- `text` is `str` of a uuid. none: no such project, or the unique public key is taken, which raises.
unfoldable pub create_dsn_key :
    Crypto → (ℕ → String) → Act → ℕ → String → Workspace → Option Key × Workspace
create_dsn_key c text act project_id public_key w =
    mint c text act project_id public_key (find_if (is_project act.org_id project_id) w.projects) w

abbrev pub is_revocable : ℕ → ℕ → ℕ → Key → Bool
is_revocable org_id project_id key_id k =
    k.org_id == org_id && (k.id == key_id && (k.project_id == project_id && k.is_active))

abbrev pub revoked : ℕ → Key → Key
revoked now k = record k { is_active = false; revoked_at = some now }

-- Whether a key was revoked; none is the answer False.
unfoldable pub revoke_dsn_key :
    Crypto → (ℕ → String) → Act → ℕ → ℕ → Workspace → Option (Unit {0}) × Workspace
revoke_dsn_key c text act project_id key_id w =
    let e =
      entry act "key.revoked" "dsn_key" key_id (field "project_id" (str (text project_id)) end) in
    if any (is_revocable act.org_id project_id key_id) w.keys
    then audited c.lower e tt w (record w {
      keys = update_where (is_revocable act.org_id project_id key_id) (revoked act.now) w.keys;
    })
    else (none, w)

pub record Member : Type 0 where
  pub user_id : ℕ
  pub email : String
  pub role : String

abbrev pub or_blank : Option String → String
or_blank none = ""
or_blank (some email) = email

abbrev pub user_ids : List Membership → List ℕ
user_ids rows = map (λ (m : Membership). m.user_id) rows

-- `first` is the order of the rows' times.
unfoldable pub list_members : (Membership → Membership → Bool) → ℕ → Instance → List Member
unfolding load_users_by_ids
list_members first org_id s =
    let rows = order_by first (keep_if (λ (m : Membership). m.org_id == org_id) s.memberships) in
    map
      (λ (m : Membership). record {
        user_id = m.user_id;
        email = or_blank (load_users_by_ids (user_ids rows) s m.user_id);
        role = m.role;
      })
      rows
