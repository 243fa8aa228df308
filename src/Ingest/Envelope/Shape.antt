-- ===== src/Ingest/Envelope/Shape.antt =====
-- The envelopes that `validate_envelope` of server/app/ingest.py accepts.
use crashlens.Base.{
  String, Bool, true, false, not, ◌&&◌, ◌||◌, ◌≡◌, ◌≢◌, ◌⊎◌, ◌↔◌, inl, inr, refl, is_some, any,
  ◌==◌, string_eq, arith, Bool-cases, eq_iff,
}
use crashlens.Json.{Json, null, bool, int, float, str, obj, arr, Fields, get_or_null}
use crashlens.Runtime.{Runtime}
use crashlens.Ingest.Envelope.Levels.{LevelName, LevelName→, →LevelName}
use crashlens.Ingest.Envelope.Timestamps.{Timestamp, is_rfc3339→, →is_rfc3339}
use crashlens.Ingest.Envelope.{
  Verdict, valid, valid_levels, require, nonempty_str, is_uuid, is_timestamp, require_level,
  require_sdk, is_null, is_str, is_dict, check_body, validate_envelope,
}

-- A text that is not empty, in these types of the fields.
abbrev pub Word : Json → Type 0
Word v = (s : String) × ((v ≡ str s) × (s ≢ ""))

abbrev pub Level : Json → Type 0
Level v = (s : String) × ((v ≡ str s) × LevelName s)

abbrev pub Sdk : Json → Type 0
Sdk v =
    (d : Fields) × ((v ≡ obj d) × (Word (get_or_null "name" d) × Word (get_or_null "version" d)))

-- A message that is a text with no exception, or an exception that is an object with no message or
-- one that is a text.
abbrev pub Body : Json → Json → Type 0
Body m e =
    ((s : String) × ((m ≡ str s) × (e ≡ null)))
    ⊎ ((d : Fields) × ((e ≡ obj d) × ((m ≡ null) ⊎ ((s : String) × (m ≡ str s)))))

pub record WellShaped (rt : Runtime) (envelope : Fields) : Type 0 where
  pub event_id :
      (s : String) × ((get_or_null "event_id" envelope ≡ str s) × (is_some (rt.uuid s) ≡ true))
  pub timestamp : (s : String) × ((get_or_null "timestamp" envelope ≡ str s) × Timestamp rt s)
  pub platform : Word (get_or_null "platform" envelope)
  pub level : Level (get_or_null "level" envelope)
  pub environment : Word (get_or_null "environment" envelope)
  pub sdk : Sdk (get_or_null "sdk" envelope)
  pub body : Body (get_or_null "message" envelope) (get_or_null "exception" envelope)

-- What each check asks for, when the rest does not fail.
require→ :
    (b : Bool) (field : String) (next : Verdict)
    → require b field next ≡ valid
    → (b ≡ true) × (next ≡ valid)
require→ true field next h = (refl, h)
require→ false field next h = cc

Word→ : (v : Json) → nonempty_str v ≡ true → Word v
Word→ (str s) h = (s, (refl, λ e. ground (arith, eq_iff s "")))
Word→ null h = cc
Word→ (bool b) h = cc
Word→ (int n) h = cc
Word→ (float b s) h = cc
Word→ (arr vs) h = cc
Word→ (obj d) h = cc

→Word : (v : Json) → Word v → nonempty_str v ≡ true
→Word v (s, (e, filled)) = rw e (ground (arith, filled, eq_iff s ""))

uuid→ :
    (rt : Runtime) (v : Json)
    → is_uuid rt v ≡ true
    → (s : String) × ((v ≡ str s) × (is_some (rt.uuid s) ≡ true))
uuid→ rt (str s) h = (s, (refl, h))
uuid→ rt null h = cc
uuid→ rt (bool b) h = cc
uuid→ rt (int n) h = cc
uuid→ rt (float b s) h = cc
uuid→ rt (arr vs) h = cc
uuid→ rt (obj d) h = cc

timestamp→ :
    (rt : Runtime) (v : Json)
    → is_timestamp rt v ≡ true
    → (s : String) × ((v ≡ str s) × Timestamp rt s)
timestamp→ rt (str s) h = (s, (refl, is_rfc3339→ rt s h))
timestamp→ rt null h = cc
timestamp→ rt (bool b) h = cc
timestamp→ rt (int n) h = cc
timestamp→ rt (float b s) h = cc
timestamp→ rt (arr vs) h = cc
timestamp→ rt (obj d) h = cc

level→ : (v : Json) (next : Verdict) → require_level v next ≡ valid → Level v × (next ≡ valid)
level→ (str s) next h =
    let parts = require→ (any (λ l. l == s) valid_levels) "level" next h in
    ((s, (refl, LevelName→ s parts.0)), parts.1)
level→ null next h = cc
level→ (bool b) next h = cc
level→ (int n) next h = cc
level→ (float b s) next h = cc
level→ (arr vs) next h = cc
level→ (obj d) next h = cc

sdk→ : (v : Json) (next : Verdict) → require_sdk v next ≡ valid → Sdk v × (next ≡ valid)
sdk→ (obj d) next h =
    let name = require→ (nonempty_str (get_or_null "name" d)) "sdk.name" _ h in
    let version = require→ (nonempty_str (get_or_null "version" d)) "sdk.version" next name.1 in
    ((d, (refl, (Word→ _ name.0, Word→ _ version.0))), version.1)
sdk→ null next h = cc
sdk→ (bool b) next h = cc
sdk→ (int n) next h = cc
sdk→ (float b s) next h = cc
sdk→ (arr vs) next h = cc
sdk→ (str s) next h = cc

str→ : (v : Json) → is_null v ≡ false → (is_null v || is_str v) ≡ true → (s : String) × (v ≡ str s)
str→ (str s) n h = (s, refl)
str→ null n h = cc
str→ (bool b) n h = cc
str→ (int m) n h = cc
str→ (float b s) n h = cc
str→ (arr vs) n h = cc
str→ (obj d) n h = cc

dict→ :
    (v : Json) → is_null v ≡ false → (is_null v || is_dict v) ≡ true → (d : Fields) × (v ≡ obj d)
dict→ (obj d) n h = (d, refl)
dict→ null n h = cc
dict→ (bool b) n h = cc
dict→ (int m) n h = cc
dict→ (float b s) n h = cc
dict→ (arr vs) n h = cc
dict→ (str s) n h = cc

null→ : (v : Json) → is_null v ≡ true → v ≡ null
null→ null h = refl
null→ (bool b) h = cc
null→ (int m) h = cc
null→ (float b s) h = cc
null→ (arr vs) h = cc
null→ (str s) h = cc
null→ (obj d) h = cc

body→ : (m e : Json) → check_body m e ≡ valid → Body m e
body→ m e h =
    let one = require→ (not (is_null m && is_null e)) "message or exception" _ h in
    let text = require→ (is_null m || is_str m) "message" _ one.1 in
    let dict = require→ (is_null e || is_dict e) "exception" valid text.1 in
    elim (Bool-cases (is_null e)) [
      | inl no_exception ↦
          let (s, same) = str→ m (ground arith) text.0 in inl (s, (same, null→ e no_exception))
      | inr exception ↦
          let (d, same) = dict→ e exception dict.0 in
          elim (Bool-cases (is_null m)) [
            | inl no_message ↦ inr (d, (same, inl (null→ m no_message)))
            | inr message ↦ inr (d, (same, inr (str→ m message text.0)))
          ]
    ]

→body : (m e : Json) → Body m e → check_body m e ≡ valid
→body m e (inl (s, (em, ee))) = rw (em, ee) refl
→body m e (inr (d, (ee, inl em))) = rw (em, ee) refl
→body m e (inr (d, (ee, inr (s, em)))) = rw (em, ee) refl

-- `validate_envelope` accepts exactly the envelopes with these top-level fields: an event id that
-- uuid.UUID takes, a timestamp that `fromisoformat` takes once +00:00 stands in the place of a final Z,
-- a platform that is not empty, one of the five levels, an environment that is not empty, an sdk that is
-- an object with a name and a version that are not empty, and a message text, an exception object with
-- any fields or none, or both, each of the two null or missing otherwise.
pub validate_envelope_iff :
    (rt : Runtime) (envelope : Fields)
    → (validate_envelope rt envelope ≡ valid) ↔ WellShaped rt envelope
unfolding validate_envelope
validate_envelope_iff rt envelope = (forth, back)
  where
    forth : validate_envelope rt envelope ≡ valid → WellShaped rt envelope
    forth h =
        let id = require→ (is_uuid rt (get_or_null "event_id" envelope)) "event_id" _ h in
        let time =
          require→ (is_timestamp rt (get_or_null "timestamp" envelope)) "timestamp" _ id.1 in
        let platform =
          require→ (nonempty_str (get_or_null "platform" envelope)) "platform" _ time.1 in
        let level = level→ (get_or_null "level" envelope) _ platform.1 in
        let place =
          require→ (nonempty_str (get_or_null "environment" envelope)) "environment" _ level.1 in
        let sdk = sdk→ (get_or_null "sdk" envelope) _ place.1 in
        record {
          event_id = uuid→ rt _ id.0;
          timestamp = timestamp→ rt _ time.0;
          platform = Word→ _ platform.0;
          level = level.0;
          environment = Word→ _ place.0;
          sdk = sdk.0;
          body = body→ _ _ sdk.1;
        }

    back : WellShaped rt envelope → validate_envelope rt envelope ≡ valid
    back w =
        let (id, (id_is, id_ok)) = w.event_id in
        let (time, (time_is, time_ok)) = w.timestamp in
        let (level, (level_is, level_ok)) = w.level in
        let (d, (d_is, (name, version))) = w.sdk in
        rw
          (
            id_is,
            id_ok,
            time_is,
            →is_rfc3339 rt time time_ok,
            →Word _ w.platform,
            level_is,
            →LevelName level level_ok,
            →Word _ w.environment,
            d_is,
            →Word _ name,
            →Word _ version,
          )
          (→body _ _ w.body)
