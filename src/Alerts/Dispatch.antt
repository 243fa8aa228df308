-- ===== src/Alerts/Dispatch.antt =====
-- `dispatch_alerts` of server/app/jobs/alerts.py: the job that delivers an alert. The network is a
-- parameter: what it answers to a request after those that were sent before.
pub mod Counters
use mathlib.Core.List
use crashlens.Base.{
  ℕ, zero, suc, ◌+◌, String, Bool, true, false, not, ◌&&◌, ◌||◌, Option, none, some, List, [], ◌∷◌,
  ◌++◌, any, find_if, keep_if, map, ◌==◌, nat_eq, string_eq, if◌then◌else◌,
}
use crashlens.Json.{
  Json, null, str, arr, obj, Fields, end, field, get, get_or_null, of_list, truthy,
}
use crashlens.Accounts.Users.{Membership, Instance, User}
use crashlens.Projects.{user_ids}
use crashlens.Workspace.{Project, Channel, Workspace, is_project}
use crashlens.Alerts.Messages.{alert_subject, alert_link, alert_body, webhook_payload, is_set}

pub record Settings : Type 0 where
  pub public_base_url : Option String
  pub smtp_host : Option String
  pub smtp_from : Option String

-- The keyword arguments of the job, with the time it reads.
pub record Alert : Type 0 where
  pub org_id : ℕ
  pub project_id : ℕ
  pub issue_id : ℕ
  pub kind : String
  pub title : String
  pub level : String
  pub release : Option String
  pub now : String

unfoldable pub smtp_is_configured : Settings → Bool
smtp_is_configured s = is_set s.smtp_host && is_set s.smtp_from

-- A mail, with its recipients, subject and body; a POST of JSON to a URL, with or without the header
-- `X-Crashlens-Event`.
pub data Request : Type 0 where
  mail : Json → String → String → Request
  post : Json → Fields → Bool → Request

-- Success, an error that is tried again, and one that is not.
pub data Reply : Type 0 where
  fine retryable fatal : Reply

abbrev pub Network : Type 0
Network = List Request → Request → Reply

pub data Outcome : Type 0 where
  delivered failed skipped : Outcome

abbrev pub http_attempts : ℕ
http_attempts = 2

-- The end of an attempt: `again` is what a further one gives.
abbrev pub on_reply : Reply → Outcome × List Request → List Request → Outcome × List Request
on_reply fine again sent = (delivered, sent)
on_reply retryable again sent = again
on_reply fatal again sent = (failed, sent)

-- `_post_json`: the attempts that are left, and the requests sent so far.
unfoldable pub post_json : Network → ℕ → Request → List Request → Outcome × List Request
post_json net zero r sent = (failed, sent)
post_json net (suc n) r sent =
    on_reply (net sent r) (post_json net n r (sent ++ r ∷ [])) (sent ++ r ∷ [])

unfoldable pub send_email : Network → Request → List Request → Outcome × List Request
send_email net r sent = on_reply (net sent r) (failed, sent ++ r ∷ []) (sent ++ r ∷ [])

-- What the branches of the loop do with a channel: `broken` is the KeyError of a config without URL.
pub data Delivery : Type 0 where
  skip broken : Delivery
  by_mail by_post : Request → Delivery

abbrev pub deliver : Network → Delivery → List Request → Outcome × List Request
deliver net skip sent = (skipped, sent)
deliver net broken sent = (failed, sent)
deliver net (by_mail r) sent = send_email net r sent
deliver net (by_post r) sent = post_json net http_attempts r sent

-- `config.get("to") or member_emails or []`
abbrev pub members_json : Option (List String) → Json
members_json none = arr (of_list [])
members_json (some emails) = arr (of_list (map str emails))

abbrev pub recipients : Fields → Option (List String) → Json
recipients config members =
    if truthy (get_or_null "to" config) then get_or_null "to" config else members_json members

abbrev pub posted : (Json → Request) → Option Json → Delivery
posted request none = broken
posted request (some url) = by_post (request url)

pub record Message : Type 0 where
  pub subject : String
  pub body : String
  pub payload : Fields

unfoldable pub delivery_of : Bool → Message → Option (List String) → Channel → Delivery
unfolding get truthy
delivery_of email_configured m members ch =
    if ch.kind == "email"
    then (if email_configured && truthy (recipients ch.config members)
        then by_mail (mail (recipients ch.config members) m.subject m.body)
        else skip)
    else if ch.kind == "slack"
    then posted (λ url. post url (field "text" (str m.body) end) false)
        (get "webhook_url" ch.config)
    else if ch.kind == "webhook"
    then posted (λ url. post url m.payload true) (get "url" ch.config)
    else skip

abbrev pub is_for : ℕ → Option ℕ → Bool
is_for project_id none = true
is_for project_id (some id) = id == project_id

abbrev pub is_matching : Alert → Channel → Bool
is_matching a ch = ch.org_id == a.org_id && (ch.is_enabled && is_for a.project_id ch.project_id)

abbrev pub load_channels : Alert → Workspace → List Channel
load_channels a w = keep_if (is_matching a) w.channels

abbrev pub name_or : String → Option Project → String
name_or id none = id
name_or id (some p) = p.name

-- `_load_member_emails`: the rows of the memberships, then those of their users.
unfoldable pub load_member_emails : ℕ → Instance → List String
load_member_emails org_id s =
    let ids = user_ids (keep_if (λ (m : Membership). m.org_id == org_id) s.memberships) in
    keep_if (λ email. not (email == ""))
      (map (λ (u : User). u.email) (keep_if (λ (u : User). any (λ id. id == u.id) ids) s.users))

abbrev pub needs_roster : Channel → Bool
needs_roster ch = ch.kind == "email" && not (truthy (get_or_null "to" ch.config))

-- The roster is read once, and only where a channel needs it.
abbrev pub roster : Bool → Alert → Instance → List Channel → Option (List String)
roster email_configured a s channels =
    if email_configured && any needs_roster channels
    then some (load_member_emails a.org_id s)
    else none

pub record Counts : Type 0 where
  pub delivered : ℕ
  pub failed : ℕ
  pub skipped : ℕ

abbrev pub count_up : Outcome → Counts → Counts
count_up delivered n = record n { delivered = n.delivered + 1 }
count_up failed n = record n { failed = n.failed + 1 }
count_up skipped n = record n { skipped = n.skipped + 1 }

unfoldable pub deliver_all : Network → List Delivery → Counts → List Request → Counts × List Request
unfolding post_json send_email
deliver_all net [] n sent = (n, sent)
deliver_all net (d ∷ deliveries) n sent =
    let r = deliver net d sent in deliver_all net deliveries (count_up r.0 n) r.1

abbrev pub message_of : Settings → (ℕ → String) → Alert → Workspace → Message
message_of settings text a w =
    let project_id = text a.project_id in
    let project_name = name_or project_id (find_if (is_project a.org_id a.project_id) w.projects) in
    let link = alert_link settings.public_base_url (text a.org_id) project_id (text a.issue_id) in
    record {
      subject = alert_subject a.kind project_name a.title;
      body = alert_body a.kind project_name a.title a.level link a.release;
      payload = webhook_payload a.kind project_id (text a.issue_id) a.title a.level a.now a.release;
    }

-- The counters, and the requests that were sent.
unfoldable pub dispatch_alerts :
    Settings → Network → (ℕ → String) → Alert → Instance → Workspace → Counts × List Request
unfolding smtp_is_configured delivery_of load_member_emails
dispatch_alerts settings net text a s w =
    let channels = load_channels a w in
    let configured = smtp_is_configured settings in
    let members = roster configured a s channels in
    deliver_all net (map (delivery_of configured (message_of settings text a w) members) channels)
      (record { delivered = 0; failed = 0; skipped = 0 }) []
