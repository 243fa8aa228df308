-- ===== src/Issues/Actions.antt =====
-- server/app/issues.py, the writing half: the status actions, assignment, comments and deletion,
-- each with the row of server/app/audit.py that it leaves in the same transaction.
use mathlib.Core.Option
use crashlens.Base.{
  ℕ, ◌+◌, String, Bool, true, false, not, ◌&&◌, ◌||◌, Option, none, some, is_some, List, [], ◌∷◌,
  ◌++◌, map, any, find_if, keep_if, update_where, leb, ltb, ◌==◌, nat_eq, string_eq, count,
  if◌then◌else◌,
}
use crashlens.Store.{
  unresolved, resolved, ignored, Issue, Release, Comment, Tenant, is_issue, has_project,
}
use crashlens.Issues.Queries.{Detail, get_issue}
unfoldable use crashlens.Issues.Queries.{get_issue}

abbrev pub comment_body_min_length : ℕ
comment_body_min_length = 1

abbrev pub comment_body_max_length : ℕ
comment_body_max_length = 5000

-- `strip` is `str.strip`; none is the ValueError.
unfoldable pub validate_comment_body : (String → String) → String → Option String
validate_comment_body strip body =
    let trimmed = strip body in
    if ltb (count trimmed) comment_body_min_length || ltb comment_body_max_length (count trimmed)
    then none
    else some trimmed

pub data Action : Type 0 where
  resolve ignore reopen : Action

abbrev pub newer_of : (String → String → Bool) → Release → Option Release → Option Release
newer_of later r none = some r
newer_of later r (some s) =
    let first =
      ltb s.created_at r.created_at || r.created_at == s.created_at && later r.version s.version in
    if first then some r else some s

-- `ORDER BY created_at DESC, version DESC LIMIT 1`; `later` is PostgreSQL's order of texts.
unfoldable pub latest_release : (String → String → Bool) → String → List Release → Option Release
latest_release later project [] = none
latest_release later project (r ∷ releases) =
    let best = latest_release later project releases in
    if r.project == project then newer_of later r best else best

unfoldable pub apply_action : Action → Option String → Issue → Issue
apply_action resolve latest issue = record issue {
  status = resolved;
  regressed_in_release = none;
  resolved_in_release = latest;
}
apply_action ignore latest issue = record issue { status = ignored; regressed_in_release = none }
apply_action reopen latest issue = record issue {
  status = unresolved;
  resolved_in_release = none;
  regressed_in_release = none;
}

abbrev pub audit_action : Action → String
audit_action resolve = "issue.resolved"
audit_action ignore = "issue.ignored"
audit_action reopen = "issue.reopened"

abbrev pub audit : String → Option String → ℕ → Tenant → Tenant
audit action actor target t = record t {
  audits = t.audits ++ record { action = action; actor = actor; target = target } ∷ [];
}

abbrev pub on_issue :
    (Issue → Tenant → Tenant × Option Issue) → Option Issue → Tenant → Tenant × Option Issue
on_issue write none t = (t, none)
on_issue write (some issue) t = write issue t

-- The UPDATE of the row and the audit that follows it.
abbrev pub write_issue :
    String → Option String → String → (Issue → Issue) → Issue → Tenant → Tenant × Option Issue
write_issue action actor project change issue t = (
  audit action actor issue.id
      (record t { issues = update_where (is_issue project issue.id) change t.issues }),
  some (change issue),
)

-- none: the 404 of a project or an issue that the organisation does not have.
unfoldable pub set_issue_status :
    (String → String → Bool) → String → ℕ → Action → Option String → Tenant → Tenant × Option Issue
unfolding apply_action latest_release
set_issue_status later project id action actor t =
    let latest =
      Option.map (λ (r : Release). r.version) (latest_release later project t.releases) in
    let write = write_issue (audit_action action) actor project (apply_action action latest) in
    if has_project t project
    then on_issue write (find_if (is_issue project id) t.issues) t
    else (t, none)

pub data Assigned : Type 0 where
  not_found invalid_assignee : Assigned
  assigned : Detail → Assigned

abbrev pub is_member : Tenant → Option String → Bool
is_member t none = true
is_member t (some user) = any (λ m. m == user) t.members

abbrev pub found_detail : Option Detail → Assigned
found_detail none = not_found
found_detail (some d) = assigned d

abbrev pub assign_to : Option String → Issue → Issue
assign_to user issue = record issue { assigned_to = user }

-- The detail is read in a session of its own, after the commit.
unfoldable pub assign_issue :
    (String → Option String)
    → ℕ
    → String
    → ℕ
    → Option String
    → Option String
    → Tenant
    → Tenant × Assigned
unfolding get_issue
assign_issue email_of now project id user actor t =
    let write = write_issue "issue.assigned" actor project (assign_to user) in
    let written = on_issue write (find_if (is_issue project id) t.issues) t in
    if has_project t project
    then (if is_member t user
        then (if is_some written.1
            then (written.0, found_detail (get_issue email_of now project id written.0))
            else (t, not_found))
        else (t, invalid_assignee))
    else (t, not_found)

abbrev pub earlier : Comment → Comment → Bool
earlier a b = ltb a.created_at b.created_at || a.created_at == b.created_at && leb a.id b.id

unfoldable pub insert_comment : Comment → List Comment → List Comment
insert_comment a [] = a ∷ []
insert_comment a (b ∷ comments) =
    let after = b ∷ insert_comment a comments in if earlier a b then a ∷ b ∷ comments else after

unfoldable pub oldest_first : List Comment → List Comment
unfolding insert_comment
oldest_first [] = []
oldest_first (c ∷ comments) = insert_comment c (oldest_first comments)

abbrev pub comments_of : ℕ → Tenant → List Comment
comments_of id t = keep_if (λ (c : Comment). c.issue_id == id) t.comments

-- A comment with its author's address, which a deleted author has not.
abbrev pub with_email : (String → Option String) → Comment → Comment × Option String
with_email email_of c = (c, elim c.author [ none ↦ none | some user ↦ email_of user ])

abbrev pub has_issue : String → ℕ → Tenant → Bool
has_issue project id t = has_project t project && is_some (find_if (is_issue project id) t.issues)

unfoldable pub list_comments :
    (String → Option String) → String → ℕ → Tenant → Option (List (Comment × Option String))
unfolding oldest_first
list_comments email_of project id t =
    if has_issue project id t
    then some (map (with_email email_of) (oldest_first (comments_of id t)))
    else none

unfoldable pub add_comment :
    (String → Option String)
    → ℕ
    → String
    → ℕ
    → String
    → String
    → Tenant
    → Tenant × Option (Comment × Option String)
add_comment email_of now project id author body t =
    let comment : Comment = record {
      id = t.next_id;
      issue_id = id;
      author = some author;
      body = body;
      created_at = now;
    } in
    if has_issue project id t
    then (
      record t { comments = t.comments ++ comment ∷ []; next_id = t.next_id + 1 },
      some (with_email email_of comment),
    )
    else (t, none)

-- The database removes the comments with the issue, and leaves the events.
abbrev pub without_issue : String → ℕ → Tenant → Tenant
without_issue project id t = record t {
  issues = keep_if (λ i. not (is_issue project id i)) t.issues;
  comments = keep_if (λ (c : Comment). not (c.issue_id == id)) t.comments;
}

unfoldable pub delete_issue : String → ℕ → Option String → Tenant → Tenant × Bool
delete_issue project id actor t =
    if is_some (find_if (is_issue project id) t.issues)
    then (audit "issue.deleted" actor id (without_issue project id t), true)
    else (t, false)
