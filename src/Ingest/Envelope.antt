-- ===== src/Ingest/Envelope.antt =====
-- `parse_json` and `validate_envelope` of server/app/ingest.py.
pub mod Levels
pub mod Timestamps
pub mod Shape
pub mod Crash
use crashlens.Base.{
  ℕ, String, Bool, true, false, not, ◌&&◌, ◌||◌, Option, none, some, is_some, List, [], ◌∷◌, any,
  ◌==◌, string_eq, if◌then◌else◌,
}
use crashlens.Json.{Json, null, str, obj, arr, Fields, get_or_null}
use crashlens.Runtime.{Runtime, iso_candidate}

-- Returning, raising `InvalidEnvelope`, or another exception, which no caller catches.
pub data Verdict : Type 0 where
  valid : Verdict
  invalid_envelope : String → Verdict
  type_error : Verdict

abbrev pub valid_levels : List String
valid_levels = "fatal" ∷ "error" ∷ "warning" ∷ "info" ∷ "debug" ∷ []

abbrev pub require : Bool → String → Verdict → Verdict
require true field next = next
require false field next = invalid_envelope field

-- `isinstance(value, str) and value`.
abbrev pub nonempty_str : Json → Bool
nonempty_str (str s) = not (s == "")
nonempty_str _ = false

unfoldable pub is_rfc3339 : Runtime → String → Bool
is_rfc3339 rt value = is_some (rt.from_iso (iso_candidate value))

abbrev pub is_uuid : Runtime → Json → Bool
is_uuid rt (str s) = is_some (rt.uuid s)
is_uuid rt _ = false

abbrev pub is_timestamp : Runtime → Json → Bool
is_timestamp rt (str s) = is_rfc3339 rt s
is_timestamp rt _ = false

-- `level not in VALID_LEVELS` on a frozenset: a list or a dict has no hash.
abbrev pub require_level : Json → Verdict → Verdict
require_level (str s) next = require (any (λ l. l == s) valid_levels) "level" next
require_level (arr vs) next = type_error
require_level (obj d) next = type_error
require_level _ next = invalid_envelope "level"

abbrev pub require_sdk : Json → Verdict → Verdict
require_sdk (obj sdk) next =
    require (nonempty_str (get_or_null "name" sdk)) "sdk.name"
      (require (nonempty_str (get_or_null "version" sdk)) "sdk.version" next)
require_sdk _ next = invalid_envelope "sdk"

abbrev pub is_null : Json → Bool
is_null null = true
is_null _ = false

abbrev pub is_str : Json → Bool
is_str (str s) = true
is_str _ = false

abbrev pub is_dict : Json → Bool
is_dict (obj d) = true
is_dict _ = false

abbrev pub check_body : Json → Json → Verdict
check_body message exception =
    require (not (is_null message && is_null exception)) "message or exception" (
      require (is_null message || is_str message) "message"
        (require (is_null exception || is_dict exception) "exception" valid))

unfoldable pub validate_envelope : Runtime → Fields → Verdict
validate_envelope rt envelope = require (is_uuid rt (get_or_null "event_id" envelope)) "event_id" (
    require (is_timestamp rt (get_or_null "timestamp" envelope)) "timestamp" (
      require (nonempty_str (get_or_null "platform" envelope)) "platform" (
        require_level (get_or_null "level" envelope) (
          require (nonempty_str (get_or_null "environment" envelope)) "environment" (
            require_sdk (get_or_null "sdk" envelope)
              (check_body (get_or_null "message" envelope) (get_or_null "exception" envelope)))))))
