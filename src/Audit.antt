-- ===== src/Audit.antt =====
-- server/app/audit.py: the rows of the audit log, which the audited operation writes in its own
-- transaction. `lower` is `str.lower`.
pub mod Safety
mod Tests
use text.Mathlib.Text.{find?}
use crashlens.Base.{
  ℕ, ◌-◌, ◌*◌, String, Bool, true, false, not, ◌&&◌, ◌||◌, Option, none, some, is_some, List, [],
  ◌∷◌, ◌++◌, any, keep_if, length, take, drop, ltb, leb, ◌==◌, nat_eq, string_eq, order_by,
  if◌then◌else◌,
}
use crashlens.Json.{Json, obj, Fields, end, field}

abbrev pub forbidden_key_substrings : List String
forbidden_key_substrings = "token" ∷ "secret" ∷ "password" ∷ "url" ∷ []

-- A key that looks as if it named a secret.
abbrev pub is_forbidden : (String → String) → String → Bool
is_forbidden lower key = any (λ part. is_some (find? (lower key) part)) forbidden_key_substrings

-- `_check_data_safety`: false is the UnsafeAuditDataError. Only a dict below a key is entered.
unfoldable pub check_data_safety : (String → String) → Fields → Bool
check_data_safety lower end = true
check_data_safety lower (field key (obj d) rest) =
    not (is_forbidden lower key) && (check_data_safety lower d && check_data_safety lower rest)
check_data_safety lower (field key value rest) =
    not (is_forbidden lower key) && check_data_safety lower rest

pub record Entry : Type 0 where
  pub id : ℕ
  pub org_id : ℕ
  pub actor_user_id : Option ℕ
  pub action : String
  pub target_type : String
  pub target_id : Option ℕ
  pub payload : Fields
  pub created_at : ℕ

-- `record`: none where the guard raises, so that the caller's transaction rolls back.
unfoldable pub log : (String → String) → Entry → List Entry → Option (List Entry)
log lower entry entries =
    if check_data_safety lower entry.payload then some (entries ++ entry ∷ []) else none

pub record Page : Type 0 where
  pub entries : List Entry
  pub total : ℕ
  pub page : ℕ
  pub per_page : ℕ

abbrev pub newest : Entry → Entry → Bool
newest a b = ltb b.created_at a.created_at || a.created_at == b.created_at && leb b.id a.id

abbrev pub matches : ℕ → Option String → Entry → Bool
matches org_id none e = e.org_id == org_id
matches org_id (some action) e = e.org_id == org_id && e.action == action

unfoldable pub list_audit_log : ℕ → Option String → ℕ → ℕ → List Entry → Page
list_audit_log org_id action page per_page entries =
    let found = keep_if (matches org_id action) entries in
    record {
      entries = take per_page (drop ((page - 1) * per_page) (order_by newest found));
      total = length found;
      page = page;
      per_page = per_page;
    }
