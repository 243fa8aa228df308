-- ===== src/Alerts/Messages.antt =====
-- The texts of an alert: the pure helpers of server/app/jobs/alerts.py.
use Prim.Native.Char.{code}
use Prim.Native.String.{[], ◌∷◌}
use Prim.Native.String
use crashlens.Base.{
  String, Bool, false, not, ◌&&◌, Option, none, some, ◌==◌, nat_eq, string_eq, if◌then◌else◌,
}
use crashlens.Json.{str, Fields, end, field}

infixr 25 ◌⧺◌
abbrev pub ◌⧺◌ : String → String → String
s ⧺ t = String.◌++◌ s t

unfoldable pub alert_subject : String → String → String → String
alert_subject kind project_name title =
    if kind == "regression"
    then "[Crashlens] Error came back in " ⧺ project_name ⧺ ": " ⧺ title
    else "[Crashlens] New error in " ⧺ project_name ⧺ ": " ⧺ title

-- `s.rstrip("/")`
unfoldable pub rstrip_slash : String → String
rstrip_slash [] = ""
rstrip_slash (c ∷ s) =
    let rest = rstrip_slash s in if rest == "" && code c == b'/' then "" else c ∷ rest

-- Python's truth value of an optional text.
abbrev pub is_set : Option String → Bool
is_set none = false
is_set (some s) = not (s == "")

abbrev pub or_none : Option String → String
or_none none = ""
or_none (some s) = s

unfoldable pub alert_link : Option String → String → String → String → String
unfolding rstrip_slash
alert_link public_base_url org_id project_id issue_id =
    let path = "/org/" ⧺ org_id ⧺ "/projects/" ⧺ project_id ⧺ "/issues/" ⧺ issue_id in
    if is_set public_base_url then rstrip_slash (or_none public_base_url) ⧺ path else path

abbrev pub headline : String → Option String → String
headline kind release =
    if kind == "regression"
    then "An error that was resolved has started happening again."
      ⧺ (if is_set release then " It came back in " ⧺ or_none release ⧺ "." else "")
    else "A new error just showed up."

unfoldable pub alert_body : String → String → String → String → String → Option String → String
alert_body kind project_name title level link release =
    headline kind release
    ⧺ "\n\n"
    ⧺ "Project: "
    ⧺ project_name
    ⧺ "\n"
    ⧺ "Error: "
    ⧺ title
    ⧺ "\n"
    ⧺ "Level: "
    ⧺ level
    ⧺ "\n"
    ⧺ (if kind == "regression" && is_set release then "Release: " ⧺ or_none release ⧺ "\n" else "")
    ⧺ "\nSee it here: "
    ⧺ link
    ⧺ "\n"

abbrev pub release_field : Option String → Fields
release_field none = end
release_field (some release) = field "release" (str release) end

unfoldable pub webhook_payload :
    String → String → String → String → String → String → Option String → Fields
webhook_payload kind project_id issue_id title level ts release = field "kind" (str kind) (
    field "project_id" (str project_id) (
      field "issue_id" (str issue_id) (
        field "title" (str title)
          (field "level" (str level) (field "ts" (str ts) (release_field release))))))
