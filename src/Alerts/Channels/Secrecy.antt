-- ===== src/Alerts/Channels/Secrecy.antt =====
-- What the audit log of server/app/alerts.py can show of a webhook's URL.
use crashlens.Base.{String, List, ◌==◌, string_eq, if◌then◌else◌}
use crashlens.Json.{str, Fields, end, field}
use crashlens.Audit.{Entry}
use crashlens.Workspace.{Workspace}
use crashlens.Alerts.Channels.{Answer}

-- The key of the URL in the config of a channel that is no email channel.
abbrev pub url_key : String → String
url_key channel_type = if channel_type == "slack" then "webhook_url" else "url"

abbrev pub with_url : String → String → Fields
with_url channel_type url = field (url_key channel_type) (str url) end

-- The rows of the audit log after a request.
abbrev pub log_of : Answer × Workspace → List Entry
log_of r = r.1.audits
