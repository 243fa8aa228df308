-- ===== src/Alerts/Channels.antt =====
-- server/app/alerts.py: the alert channels of an organisation.
pub mod Secrecy
use Prim.Native.String
use crashlens.Base.{
  ℕ, String, Bool, true, false, not, ◌&&◌, ◌||◌, Option, none, some, is_some, List, [], ◌∷◌, ◌++◌,
  all, find_if, keep_if, update_where, order_by, map, leb, ◌==◌, nat_eq, string_eq, if◌then◌else◌,
  ◌>>=◌,
}
use crashlens.Json.{
  Json, null, bool, int, float, str, arr, obj, Items, nil, cons, Fields, end, field, get_or_null,
  of_list, truthy,
}
use crashlens.Workspace.{Project, Channel, Workspace, Act, is_project, is_channel, entry, audited}
use crashlens.Alerts.Config.{
  Texts, Checked, valid, config_error, value_error, validate_channel_config, mask_target,
}

abbrev pub newest_channel : Channel → Channel → Bool
newest_channel a b = leb b.created_at a.created_at

unfoldable pub list_channels : ℕ → Workspace → List Channel
list_channels org_id w =
    order_by newest_channel (keep_if (λ (ch : Channel). ch.org_id == org_id) w.channels)

-- A row, the answers 404 and 400, or an exception that the route lets through.
pub data Answer : Type 0 where
  saved : Channel → Answer
  absent bad_config crashed : Answer

abbrev pub answer : Option Channel × Workspace → Answer × Workspace
answer (none, w) = (crashed, w)
answer (some ch, w) = (saved ch, w)

abbrev pub in_org : ℕ → Option ℕ → Workspace → Bool
in_org org_id none w = true
in_org org_id (some project_id) w = is_some (find_if (is_project org_id project_id) w.projects)

abbrev pub new_channel : Act → String → Option ℕ → Fields → Channel
new_channel act channel_type project_id config = record {
  id = act.new_id;
  org_id = act.org_id;
  project_id = project_id;
  kind = channel_type;
  config = config;
  is_enabled = true;
  created_at = act.now;
}

abbrev pub insert_channel :
    Texts → Act → String → Option ℕ → Fields → Option String → Workspace → Answer × Workspace
insert_channel x act channel_type project_id config none w = (crashed, w)
insert_channel x act channel_type project_id config (some target) w =
    let channel = new_channel act channel_type project_id config in
    answer (
      audited x.lower
        (entry act "channel.created" "alert_channel" act.new_id
          (field "type" (str channel_type) (field "target" (str target) end)))
        channel w (record w { channels = w.channels ++ channel ∷ [] }))

abbrev pub create_checked :
    Texts → Act → String → Option ℕ → Checked → Workspace → Answer × Workspace
create_checked x act channel_type project_id config_error w = (bad_config, w)
create_checked x act channel_type project_id value_error w = (crashed, w)
create_checked x act channel_type project_id (valid config) w =
    if in_org act.org_id project_id w
    then insert_channel x act channel_type project_id config (mask_target x channel_type config) w
    else (absent, w)

unfoldable pub create_channel :
    Texts → Act → String → Json → Option ℕ → Workspace → Answer × Workspace
unfolding validate_channel_config mask_target
create_channel x act channel_type config project_id w =
    create_checked x act channel_type project_id (validate_channel_config x channel_type config) w

-- The two facets of an update, each with its part of the audit row.
abbrev pub set_enabled : Option Bool → Channel → Channel
set_enabled none ch = ch
set_enabled (some enabled) ch = record ch { is_enabled = enabled }

abbrev pub enabled_data : Option Bool → Fields → Fields
enabled_data none rest = rest
enabled_data (some enabled) rest = field "enabled" (bool enabled) rest

abbrev pub write_channel :
    Texts → Act → Channel → (Channel → Channel) → Fields → Workspace → Answer × Workspace
write_channel x act current change payload w = answer (
    audited x.lower (entry act "channel.updated" "alert_channel" current.id payload)
      (change current) w
      (record w { channels = update_where (is_channel act.org_id current.id) change w.channels }))

abbrev pub with_config : Option Bool → Fields → Channel → Channel
with_config enabled config ch = record (set_enabled enabled ch) { config = config }

abbrev pub write_masked :
    Texts → Act → Option Bool → Channel → Fields → Option String → Workspace → Answer × Workspace
write_masked x act enabled current config none w = (crashed, w)
write_masked x act enabled current config (some target) w =
    write_channel x act current (with_config enabled config)
      (enabled_data enabled (field "target" (str target) end)) w

abbrev pub write_checked :
    Texts → Act → Option Bool → Channel → Checked → Workspace → Answer × Workspace
write_checked x act enabled current config_error w = (bad_config, w)
write_checked x act enabled current value_error w = (crashed, w)
write_checked x act enabled current (valid config) w =
    write_masked x act enabled current config (mask_target x current.kind config) w

-- `config` is none where the request leaves it out or gives null.
abbrev pub update_found :
    Texts → Act → Option Bool → Option Json → Option Channel → Workspace → Answer × Workspace
update_found x act enabled config none w = (absent, w)
update_found x act none none (some current) w = (saved current, w)
update_found x act (some enabled) none (some current) w =
    write_channel x act current (set_enabled (some enabled)) (enabled_data (some enabled) end) w
update_found x act enabled (some config) (some current) w =
    write_checked x act enabled current (validate_channel_config x current.kind config) w

unfoldable pub update_channel :
    Texts → Act → ℕ → Option Bool → Option Json → Workspace → Answer × Workspace
unfolding validate_channel_config mask_target
update_channel x act channel_id enabled config w =
    update_found x act enabled config (find_if (is_channel act.org_id channel_id) w.channels) w

abbrev pub delete_found : Texts → Act → Option Channel → Workspace → Option Channel × Workspace
delete_found x act none w = (none, w)
delete_found x act (some ch) w =
    audited x.lower
      (entry act "channel.deleted" "alert_channel" ch.id (field "type" (str ch.kind) end)) ch w
      (record w { channels = keep_if (λ c. not (is_channel act.org_id ch.id c)) w.channels })

-- The deleted row; none is the answer False.
unfoldable pub delete_channel : Texts → Act → ℕ → Workspace → Option Channel × Workspace
delete_channel x act channel_id w =
    delete_found x act (find_if (is_channel act.org_id channel_id) w.channels) w
