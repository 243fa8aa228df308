-- ===== src/Audit/Tests.antt =====
-- Witness of the audit log's guard.
use crashlens.Base.{◌≡◌, ◌↔◌, ◌⊎◌, refl, none, some, [], ◌∷◌, ◌++◌}
use crashlens.Json.{str, obj, end, field}
use crashlens.Audit.{check_data_safety, Entry, log}
use crashlens.Audit.Safety.{Clean, keys_of, log_iff}

abbrev row : Entry
row = record {
  id = 1;
  org_id = 7;
  actor_user_id = some 2;
  action = "project.created";
  target_type = "project";
  target_id = some 3;
  payload = field "old" (obj (field "dsn_url" (str "x") end)) end;
  created_at = 5;
}

nested_is_seen : log (λ s. s) row [] ≡ none
unfolding log check_data_safety
nested_is_seen = refl

log_iff_example :
    ((log (λ s. s) row [] ≡ some ([] ++ row ∷ [])) ↔ Clean (λ s. s) (keys_of row.payload))
    × ((log (λ s. s) row [] ≡ none) ⊎ (log (λ s. s) row [] ≡ some ([] ++ row ∷ [])))
log_iff_example = log_iff (λ s. s) row []
