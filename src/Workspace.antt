-- ===== src/Workspace.antt =====
-- The rows that the requests of server/app/projects.py and server/app/alerts.py read and write, of all
-- organisations. A tenant session sees the rows of its own organisation only.
use crashlens.Base.{ℕ, String, Bool, Option, none, some, List, ◌==◌, nat_eq, ◌&&◌}
use crashlens.Json.{Fields}
use crashlens.Audit.{Entry, log}

pub record Project : Type 0 where
  pub id : ℕ
  pub org_id : ℕ
  pub name : String
  pub slug : String
  pub platform : Option String
  -- In the parts in which the endpoint counts a rate.
  pub sampling_rate : ℕ
  pub created_at : ℕ

pub record Key : Type 0 where
  pub id : ℕ
  pub org_id : ℕ
  pub project_id : ℕ
  pub public_key : String
  -- The status: active, or revoked.
  pub is_active : Bool
  pub revoked_at : Option ℕ
  pub created_at : ℕ

pub record Channel : Type 0 where
  pub id : ℕ
  pub org_id : ℕ
  pub project_id : Option ℕ
  pub kind : String
  pub config : Fields
  pub is_enabled : Bool
  pub created_at : ℕ

pub record Workspace : Type 0 where
  pub projects : List Project
  pub keys : List Key
  pub channels : List Channel
  pub audits : List Entry

-- The project that a tenant session finds by its id.
abbrev pub is_project : ℕ → ℕ → Project → Bool
is_project org_id project_id p = p.org_id == org_id && p.id == project_id

abbrev pub is_channel : ℕ → ℕ → Channel → Bool
is_channel org_id channel_id ch = ch.org_id == org_id && ch.id == channel_id

-- Who acts, when, and the ids that the request draws for its row and for the row of the audit log.
pub record Act : Type 0 where
  pub org_id : ℕ
  pub actor_user_id : Option ℕ
  pub now : ℕ
  pub new_id : ℕ
  pub audit_id : ℕ

abbrev pub entry : Act → String → String → ℕ → Fields → Entry
entry act action target_type target_id payload = record {
  id = act.audit_id;
  org_id = act.org_id;
  actor_user_id = act.actor_user_id;
  action = action;
  target_type = target_type;
  target_id = some target_id;
  payload = payload;
  created_at = act.now;
}

-- The end of a transaction with its row of the audit log: none where the guard raises, and then the
-- transaction rolls back.
abbrev pub with_audits :
    {A : Type 0} → A → Workspace → Workspace → Option (List Entry) → Option A × Workspace
with_audits a before after none = (none, before)
with_audits a before after (some audits) = (some a, record after { audits = audits })

abbrev pub audited :
    {A : Type 0} → (String → String) → Entry → A → Workspace → Workspace → Option A × Workspace
audited lower e a before after = with_audits a before after (log lower e before.audits)
