-- ===== src/Ingest/Endpoint/Queue.antt =====
-- What `ingest_event` of server/app/routes/ingest.py puts on the queue.
use crashlens.Base.{
  ◌≡◌, ◌⊎◌, inl, inr, refl, String, Bool, true, false, Option, none, some, [], ◌∷◌, ◌++◌, length,
  ltb, ◌==◌, string_eq, eq_iff, if_both,
}
use crashlens.Json.{null, bool, int, float, str, arr, obj, Fields, get_or_null}
use crashlens.RateLimit.{check_rate_limit}
use crashlens.Ingest.Body.{
  Unpacked, bytes, payload_too_large, malformed_body, out_of_fuel, decompress_gzip,
  max_decompressed_bytes,
}
use crashlens.Ingest.Envelope.{Verdict, valid, invalid_envelope, type_error, validate_envelope}
use crashlens.Ingest.Envelope.Shape.{WellShaped, validate_envelope_iff}
use crashlens.Ingest.Endpoint.{
  Loaded, loaded, malformed, too_deep, DsnKeyRecord, resolve_dsn_key, Web, Request, Job, World,
  Response, accepted, Moment, sampled_out, on_verdict, on_json, on_unpacked, read_body, on_key,
  on_record, on_public_key, ingest_event,
}

-- The key is in the tables, active and of the project.
pub record KeyFits (project_id : String) (w : World) (key : DsnKeyRecord) : Type 0 where
  pub public_key : String
  pub resolved : resolve_dsn_key w.keys w.projects public_key ≡ some key
  pub active : key.status ≡ "active"
  pub of_project : key.project_id ≡ project_id

-- A job for the request's project, whose envelope is well shaped.
pub record JobFits (web : Web) (project_id : String) (w : World) (job : Job) : Type 0 where
  pub key : DsnKeyRecord
  pub key_fits : KeyFits project_id w key
  pub same_org : job.org_id ≡ key.org_id
  pub same_project : job.project_id ≡ project_id
  pub shape : WellShaped web.runtime job.envelope

abbrev pub is_accepted : Response → Bool
is_accepted (accepted id) = true
is_accepted _ = false

-- One job is put at the end of the queue and its event id is answered, or the queue stays as it is
-- and no event id is answered.
abbrev pub Served : Web → String → World → Response × World → Type 0
Served web project_id w (response, w') =
    ((job : Job) × ((w'.queue ≡ w.queue ++ job ∷ [])
        × ((response ≡ accepted (get_or_null "event_id" job.envelope))
            × JobFits web project_id w job)))
    ⊎ ((w'.queue ≡ w.queue) × (is_accepted response ≡ false))

module _ (web : Web) (m : Moment) (project_id : String) (w : World) (key : DsnKeyRecord)
    (fits : KeyFits project_id w key) where
  -- From here on the world differs from the first in its buckets.
  on_verdict-Served :
      (envelope : Fields) (v : Verdict) (u : World)
      → validate_envelope web.runtime envelope ≡ v
      → u.queue ≡ w.queue
      → Served web project_id w (on_verdict m key envelope v u)
  on_verdict-Served envelope valid u shaped same = inl (
    record {
      envelope = envelope;
      org_id = key.org_id;
      project_id = key.project_id;
      dsn_key_id = key.id;
      received_at = m.received_at;
    },
    (
      rw same refl,
      (
        refl,
        record {
          key = key;
          key_fits = fits;
          same_org = refl;
          same_project = fits.of_project;
          shape = (validate_envelope_iff web.runtime envelope).0 shaped;
        },
      ),
    ),
  )
  on_verdict-Served envelope (invalid_envelope field) u shaped same = inr (same, refl)
  on_verdict-Served envelope type_error u shaped same = inr (same, refl)

  on_json-Served :
      (o : Loaded) (u : World) → u.queue ≡ w.queue → Served web project_id w (on_json web m key o u)
  on_json-Served malformed u same = inr (same, refl)
  on_json-Served too_deep u same = inr (same, refl)
  on_json-Served (loaded (obj envelope)) u same =
      on_verdict-Served envelope (validate_envelope web.runtime envelope) u refl same
  on_json-Served (loaded null) u same = inr (same, refl)
  on_json-Served (loaded (bool b)) u same = inr (same, refl)
  on_json-Served (loaded (int n)) u same = inr (same, refl)
  on_json-Served (loaded (float b s)) u same = inr (same, refl)
  on_json-Served (loaded (str s)) u same = inr (same, refl)
  on_json-Served (loaded (arr vs)) u same = inr (same, refl)

  on_unpacked-Served :
      (o : Unpacked) (u : World)
      → u.queue ≡ w.queue
      → Served web project_id w (on_unpacked web m key o u)
  on_unpacked-Served (bytes body) u same = on_json-Served (web.loads body) u same
  on_unpacked-Served payload_too_large u same = inr (same, refl)
  on_unpacked-Served malformed_body u same = inr (same, refl)
  on_unpacked-Served out_of_fuel u same = inr (same, refl)

  read_body-Served :
      (request : Request) (u : World)
      → u.queue ≡ w.queue
      → Served web project_id w (read_body web m key request u)
  read_body-Served request u same =
      if_both (Served web project_id w) (web.holds_gzip request.encoding) _ _
        (λ _. on_unpacked-Served (decompress_gzip web.zlib request.body) u same)
        (λ _.
          if_both (Served web project_id w) (ltb max_decompressed_bytes (length request.body)) _ _
            (λ _. inr (same, refl)) (λ _. on_json-Served (web.loads request.body) u same))

  on_key-Served : (request : Request) → Served web project_id w (on_key web m key request w)
  on_key-Served request =
      let checked = check_rate_limit m.lua m.hz w.buckets key.id m.now in
      let u = record w { buckets = checked.1 } in
      if_both (Served web project_id w) checked.0.allowed _ _
        (λ _.
          if_both (Served web project_id w) (sampled_out m.scale m.roll key.sampling_rate) _ _
            (λ _. inr (refl, refl)) (λ _. read_body-Served request u refl))
        (λ _. inr (refl, refl))

on_record-Served :
    (web : Web) (m : Moment) (project_id public_key : String) (request : Request) (w : World)
    (o : Option DsnKeyRecord)
    → resolve_dsn_key w.keys w.projects public_key ≡ o
    → Served web project_id w (on_record web m project_id o request w)
on_record-Served web m project_id public_key request w none e = inr (refl, refl)
on_record-Served web m project_id public_key request w (some key) e =
    if_both (Served web project_id w) (key.status == "active") _ _
      (λ active.
        if_both (Served web project_id w) (key.project_id == project_id) _ _
          (λ same.
            on_key-Served web m project_id w key
              (record {
                public_key = public_key;
                resolved = e;
                active = (eq_iff key.status "active").0 active;
                of_project = (eq_iff key.project_id project_id).0 same;
              })
              request)
          (λ _. inr (refl, refl)))
      (λ _. inr (refl, refl))

-- A request puts at most one job on the queue: either it puts exactly one, for the project of the URL
-- and the organisation of an active key of that project, with an envelope that passes the validation,
-- and answers the envelope's event id, or it leaves the queue as it is and answers no event id.
pub ingest_event-Served :
    (web : Web) (m : Moment) (project_id : String) (request : Request) (w : World)
    → Served web project_id w (ingest_event web m project_id request w)
unfolding ingest_event
ingest_event-Served web m project_id request w = go request.public_key
  where
    go : (o : Option String) → Served web project_id w (on_public_key web m project_id o request w)
    go none = inr (refl, refl)
    go (some public_key) =
        if_both (Served web project_id w) (public_key == "") _ _ (λ _. inr (refl, refl))
          (λ _. on_record-Served web m project_id public_key request w _ refl)
