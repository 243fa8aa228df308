-- ===== src/Alerts/Config.antt =====
-- The configs of the alert channels: `validate_channel_config` and `mask_target` of
-- server/app/alerts.py.
pub mod Stored
use Prim.Native.String
use crashlens.Base.{
  ℕ, String, Bool, true, false, not, ◌&&◌, ◌||◌, Option, none, some, is_some, List, [], ◌∷◌, ◌++◌,
  all, find_if, keep_if, update_where, order_by, map, leb, ◌==◌, nat_eq, string_eq, if◌then◌else◌,
  ◌>>=◌,
}
use crashlens.Json.{
  Json, null, bool, int, float, str, arr, obj, Items, nil, cons, Fields, end, field, get_or_null,
  of_list, truthy,
}
use crashlens.Workspace.{Project, Channel, Workspace, Act, is_project, is_channel, entry, audited}

pub record Url : Type 0 where
  pub scheme : String
  pub netloc : String

-- What the code takes from Python: `str.lower`, `str.strip`, `urlsplit`, none where it raises, and the
-- match of `_EMAIL_RE`.
pub record Texts : Type 0 where
  pub lower : String → String
  pub strip : String → String
  pub urlsplit : String → Option Url
  pub is_email : String → Bool

-- A config, the ChannelConfigError, or the ValueError of `urlsplit`.
pub data Checked : Type 0 where
  valid : Fields → Checked
  config_error : Checked
  value_error : Checked

-- none: `urlsplit` raises.
unfoldable pub is_https_url : Texts → Json → Option Bool
is_https_url x (str s) =
    if s == ""
    then some false
    else (x.urlsplit (x.strip s) >>= λ (u : Url).
        some (u.scheme == "https" && not (u.netloc == "")))
is_https_url x _ = some false

-- The items, where all are texts.
abbrev pub texts_of : Items → Option (List String)
texts_of nil = some []
texts_of (cons (str s) items) = texts_of items >>= λ texts. some (s ∷ texts)
texts_of (cons _ items) = none

abbrev pub cleaned : Texts → List String → List String
cleaned x texts = keep_if (λ s. not (s == "")) (map x.strip texts)

abbrev pub to_field : List String → Fields
to_field [] = end
to_field (s ∷ texts) = field "to" (arr (of_list (map str (s ∷ texts)))) end

abbrev pub recipients : Texts → Option (List String) → Checked
recipients x none = config_error
recipients x (some texts) =
    if all x.is_email (cleaned x texts) then valid (to_field (cleaned x texts)) else config_error

abbrev pub email_config : Texts → Json → Checked
email_config x null = valid end
email_config x (arr items) = recipients x (texts_of items)
email_config x _ = config_error

abbrev pub stripped : Texts → Json → Json
stripped x (str s) = str (x.strip s)
stripped x v = v

abbrev pub url_checked : Texts → String → Json → Option Bool → Checked
url_checked x key url none = value_error
url_checked x key url (some false) = config_error
url_checked x key url (some true) = valid (field key (stripped x url) end)

abbrev pub url_config : Texts → String → Fields → Checked
url_config x key config =
    url_checked x key (get_or_null key config) (is_https_url x (get_or_null key config))

abbrev pub config_of : Texts → String → Fields → Checked
config_of x channel_type config =
    if channel_type == "email"
    then email_config x (get_or_null "to" config)
    else if channel_type == "slack"
    then url_config x "webhook_url" config
    else url_config x "url" config

abbrev pub is_channel_type : String → Bool
is_channel_type t = t == "email" || (t == "slack" || t == "webhook")

abbrev pub checked_object : Texts → String → Json → Checked
checked_object x channel_type null = config_of x channel_type end
checked_object x channel_type (obj config) = config_of x channel_type config
checked_object x channel_type _ = config_error

unfoldable pub validate_channel_config : Texts → String → Json → Checked
unfolding is_https_url
validate_channel_config x channel_type config =
    if is_channel_type channel_type then checked_object x channel_type config else config_error

-- `", ".join(texts)`
abbrev pub joined : List String → String
joined [] = ""
joined (s ∷ []) = s
joined (s ∷ t ∷ texts) = String.◌++◌ s (String.◌++◌ ", " (joined (t ∷ texts)))

abbrev pub masked_list : Json → Option String
masked_list (arr nil) = some "All team members"
masked_list (arr items) = texts_of items >>= λ texts. some (joined texts)
masked_list _ = some "All team members"

abbrev pub masked_parts : Url → String
masked_parts u =
    if u.scheme == "" || u.netloc == ""
    then "(hidden)"
    else String.◌++◌ u.scheme (String.◌++◌ "://" (String.◌++◌ u.netloc "/..."))

abbrev pub masked_url : Texts → Json → Option String
masked_url x (str s) =
    if s == "" then some "(not set)" else (x.urlsplit s >>= λ u. some (masked_parts u))
masked_url x _ = some "(not set)"

-- `config.get("webhook_url") or config.get("url") or ""`
abbrev pub raw_url : Fields → Json
raw_url config =
    if truthy (get_or_null "webhook_url" config)
    then get_or_null "webhook_url" config
    else if truthy (get_or_null "url" config)
    then get_or_null "url" config
    else str ""

-- none where `join` or `urlsplit` raises.
unfoldable pub mask_target : Texts → String → Fields → Option String
unfolding truthy
mask_target x channel_type config =
    if channel_type == "email"
    then masked_list (get_or_null "to" config)
    else masked_url x (raw_url config)
