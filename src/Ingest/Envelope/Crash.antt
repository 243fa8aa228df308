-- ===== src/Ingest/Envelope/Crash.antt =====
-- The envelopes on which `validate_envelope` of server/app/ingest.py raises a `TypeError`: the test of
-- the level against a frozenset needs its hash.
use crashlens.Base.{
  String, Bool, true, false, not, ◌&&◌, ◌||◌, ◌≡◌, ◌≢◌, ◌⊎◌, ◌↔◌, inl, inr, refl, string_eq,
}
use crashlens.Json.{Json, null, bool, int, float, str, obj, arr, Items, Fields, get_or_null}
use crashlens.Runtime.{Runtime}
use crashlens.Ingest.Envelope.{
  Verdict, valid, type_error, require, nonempty_str, is_uuid, is_timestamp, require_level,
  require_sdk, is_null, is_str, is_dict, check_body, validate_envelope,
}

abbrev pub HasNoHash : Json → Type 0
HasNoHash v = ((vs : Items) × (v ≡ arr vs)) ⊎ ((d : Fields) × (v ≡ obj d))

raises→ :
    (b : Bool) (f : String) (next : Verdict)
    → require b f next ≡ type_error
    → (b ≡ true) × (next ≡ type_error)
raises→ true f next h = (refl, h)
raises→ false f next h = cc

calm_require :
    (b : Bool) (f : String) (next : Verdict) → next ≢ type_error → require b f next ≢ type_error
calm_require true f next calm h = calm h
calm_require false f next calm h = cc

calm_body : (m e : Json) → check_body m e ≢ type_error
calm_body m e h =
    let one = raises→ (not (is_null m && is_null e)) _ _ h in
    let two = raises→ (is_null m || is_str m) _ _ one.1 in
    let three = raises→ (is_null e || is_dict e) _ valid two.1 in cc

calm_sdk : (v : Json) (next : Verdict) → next ≢ type_error → require_sdk v next ≢ type_error
calm_sdk (obj d) next calm h =
    calm_require (nonempty_str (get_or_null "name" d)) _ _
      (calm_require (nonempty_str (get_or_null "version" d)) _ next calm) h
calm_sdk null next calm h = cc
calm_sdk (bool b) next calm h = cc
calm_sdk (int n) next calm h = cc
calm_sdk (float b s) next calm h = cc
calm_sdk (str s) next calm h = cc
calm_sdk (arr vs) next calm h = cc

level-HasNoHash :
    (v : Json) (next : Verdict)
    → next ≢ type_error
    → require_level v next ≡ type_error
    → HasNoHash v
level-HasNoHash (arr vs) next calm h = inl (vs, refl)
level-HasNoHash (obj d) next calm h = inr (d, refl)
level-HasNoHash (str s) next calm h = absurd (calm_require _ _ next calm h)
level-HasNoHash null next calm h = cc
level-HasNoHash (bool b) next calm h = cc
level-HasNoHash (int n) next calm h = cc
level-HasNoHash (float b s) next calm h = cc

raised_level : (v : Json) (next : Verdict) → HasNoHash v → require_level v next ≡ type_error
raised_level v next (inl (vs, e)) = rw e refl
raised_level v next (inr (d, e)) = rw e refl

-- `validate_envelope` raises a `TypeError`, which the endpoint does not catch, exactly where the fields
-- tested before the level are good and the level is a list or an object.
pub validate_envelope-crashes_iff :
    (rt : Runtime) (envelope : Fields)
    → (validate_envelope rt envelope ≡ type_error) ↔ (
        (is_uuid rt (get_or_null "event_id" envelope) ≡ true)
        × ((is_timestamp rt (get_or_null "timestamp" envelope) ≡ true)
            × ((nonempty_str (get_or_null "platform" envelope) ≡ true)
                × HasNoHash (get_or_null "level" envelope))))
unfolding validate_envelope
validate_envelope-crashes_iff rt envelope = (
  λ h.
      let id = raises→ (is_uuid rt (get_or_null "event_id" envelope)) "event_id" _ h in
      let time = raises→ (is_timestamp rt (get_or_null "timestamp" envelope)) "timestamp" _ id.1 in
      let platform = raises→ (nonempty_str (get_or_null "platform" envelope)) "platform" _ time.1 in
      (
        id.0,
        (
          time.0,
          (
            platform.0,
            level-HasNoHash (get_or_null "level" envelope) _
                (calm_require (nonempty_str (get_or_null "environment" envelope)) "environment" _ (
                  calm_sdk (get_or_null "sdk" envelope) _ (
                    calm_body (get_or_null "message" envelope) (get_or_null "exception" envelope))))
                platform.1,
          ),
        ),
      ),
  λ (id, (time, (platform, level))). rw (id, time, platform) (raised_level _ _ level),
)
