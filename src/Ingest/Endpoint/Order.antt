-- ===== src/Ingest/Endpoint/Order.antt =====
-- When `ingest_event` of server/app/routes/ingest.py asks the limiter.
use crashlens.Base.{
  ◌≡◌, refl, String, Bool, false, not, ◌&&◌, ◌||◌, Option, none, some, is_some, length, ltb, ◌==◌,
  nat_eq, string_eq, if_both, if◌then◌else◌, Bool-cases, inl, inr,
}
use crashlens.Json.{null, bool, int, float, str, arr, obj}
use crashlens.RateLimit.{Redis, check_rate_limit}
use crashlens.Ingest.Body.{
  Unpacked, bytes, payload_too_large, malformed_body, out_of_fuel, decompress_gzip,
  max_decompressed_bytes,
}
use crashlens.Ingest.Envelope.{Verdict, valid, invalid_envelope, type_error, validate_envelope}
use crashlens.Ingest.Endpoint.{
  Loaded, loaded, malformed, too_deep, DsnKeyRecord, resolve_dsn_key, Web, Request, World, Response,
  rejected, Moment, sampled_out, on_verdict, on_json, on_unpacked, on_key, on_record, on_public_key,
  ingest_event,
}

-- The key of a request that may send events to the project.
abbrev pub of_project : String → Option DsnKeyRecord → Option DsnKeyRecord
of_project project_id none = none
of_project project_id (some key) =
    if key.status == "active" && key.project_id == project_id then some key else none

abbrev pub authenticated : String → Option String → World → Option DsnKeyRecord
authenticated project_id none w = none
authenticated project_id (some public_key) w =
    if public_key == ""
    then none
    else of_project project_id (resolve_dsn_key w.keys w.projects public_key)

abbrev pub spent : Moment → World → Option DsnKeyRecord → Redis
spent m w none = w.buckets
spent m w (some key) = (check_rate_limit m.lua m.hz w.buckets key.id m.now).1

-- 401 and 403.
abbrev pub is_unauthorized : Response → Bool
is_unauthorized (rejected decision code retry_after) = code == 401 || code == 403
is_unauthorized _ = false

abbrev pub Charged : Moment → World → Option DsnKeyRecord → Response × World → Type 0
Charged m w o (response, w') =
    (w'.buckets ≡ spent m w o) × (is_unauthorized response ≡ not (is_some o))

module _ (web : Web) (m : Moment) (w : World) (key : DsnKeyRecord) where
  abbrev Paid : Response × World → Type 0
  Paid = Charged m w (some key)

  on_json-Paid :
      (o : Loaded) (u : World) → u.buckets ≡ spent m w (some key) → Paid (on_json web m key o u)
  on_json-Paid malformed u e = (e, refl)
  on_json-Paid too_deep u e = (e, refl)
  on_json-Paid (loaded (obj envelope)) u e =
      on_verdict-Paid (validate_envelope web.runtime envelope)
    where
      on_verdict-Paid : (v : Verdict) → Paid (on_verdict m key envelope v u)
      on_verdict-Paid valid = (e, refl)
      on_verdict-Paid (invalid_envelope field) = (e, refl)
      on_verdict-Paid type_error = (e, refl)
  on_json-Paid (loaded null) u e = (e, refl)
  on_json-Paid (loaded (bool b)) u e = (e, refl)
  on_json-Paid (loaded (int n)) u e = (e, refl)
  on_json-Paid (loaded (float b s)) u e = (e, refl)
  on_json-Paid (loaded (str s)) u e = (e, refl)
  on_json-Paid (loaded (arr vs)) u e = (e, refl)

  on_unpacked-Paid :
      (o : Unpacked) (u : World)
      → u.buckets ≡ spent m w (some key)
      → Paid (on_unpacked web m key o u)
  on_unpacked-Paid (bytes body) u e = on_json-Paid (web.loads body) u e
  on_unpacked-Paid payload_too_large u e = (e, refl)
  on_unpacked-Paid malformed_body u e = (e, refl)
  on_unpacked-Paid out_of_fuel u e = (e, refl)

  on_key-Paid : (request : Request) → Paid (on_key web m key request w)
  on_key-Paid request =
      let checked = check_rate_limit m.lua m.hz w.buckets key.id m.now in
      let u = record w { buckets = checked.1 } in
      if_both Paid checked.0.allowed _ _
        (λ _.
          if_both Paid (sampled_out m.scale m.roll key.sampling_rate) _ _ (λ _. (refl, refl))
            (λ _.
              if_both Paid (web.holds_gzip request.encoding) _ _
                (λ _. on_unpacked-Paid (decompress_gzip web.zlib request.body) u refl)
                (λ _.
                  if_both Paid (ltb max_decompressed_bytes (length request.body)) _ _
                    (λ _. (refl, refl)) (λ _. on_json-Paid (web.loads request.body) u refl))))
        (λ _. (refl, refl))

on_record-Charged :
    (web : Web) (m : Moment) (project_id : String) (request : Request) (w : World)
    (o : Option DsnKeyRecord)
    → Charged m w (of_project project_id o) (on_record web m project_id o request w)
on_record-Charged web m project_id request w none = (refl, refl)
on_record-Charged web m project_id request w (some key) =
    elim (Bool-cases (key.status == "active")) [
      | inr inactive ↦ rw inactive (refl, refl)
      | inl active ↦ elim (Bool-cases (key.project_id == project_id)) [
        | inr other ↦ rw (active, other) (refl, refl)
        | inl same ↦ rw (active, same) (on_key-Paid web m w key request)
      ]
    ]

-- A request whose key is in the tables, active and of the project is charged one call of the limiter
-- under that key, whatever its body is and whatever becomes of it, and is never answered 401 or 403;
-- any other request is answered 401 or 403 and leaves every bucket as it is.
pub ingest_event-Charged :
    (web : Web) (m : Moment) (project_id : String) (request : Request) (w : World)
    → Charged m w
        (authenticated project_id request.public_key w)
        (ingest_event web m project_id request w)
unfolding ingest_event
ingest_event-Charged web m project_id request w = go request.public_key
  where
    go :
        (o : Option String)
        → Charged m w (authenticated project_id o w) (on_public_key web m project_id o request w)
    go none = (refl, refl)
    go (some public_key) = elim (Bool-cases (public_key == "")) [
      | inl empty ↦ rw empty (refl, refl)
      | inr given ↦ rw given (
          on_record-Charged web m project_id request w
            (resolve_dsn_key w.keys w.projects public_key))
    ]
