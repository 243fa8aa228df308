-- ===== src/Event/Process/Accepted.antt =====
-- What server/app/jobs/process_event.py makes of an envelope that the endpoint let in.
use crashlens.Base.{
  ℕ, ◌≡◌, ◌⊎◌, inl, inr, refl, ap, ◌∙◌, String, true, false, Option, none, some, any, ◌==◌,
  string_eq, Bool-cases, Option-cases,
}
use crashlens.Json.{Json, str, obj, Fields, get, get_or_null, or_null}
use crashlens.Runtime.{Runtime}
use crashlens.SourceMap.Symbolicate.{Disk, symbolicate_envelope}
use crashlens.SourceMap.Symbolicate.Frame.{get-symbolicate_envelope_other}
use crashlens.Store.{Tenant, is_event, has_project, has_partition}
use crashlens.Event.Normalize.{normalize_envelope}
use crashlens.Event.Normalize.Chain.{get-normalize_envelope_other}
use crashlens.Event.Fingerprint.{compute_fingerprint, derive_title, coerce_timestamp}
use crashlens.Event.Process.{
  Signal, Result, stored, duplicate, poison, transact, prepare, prepare_copy, process_event,
  uuid_column, other_columns, release_column, level_names,
}
use crashlens.Event.Rows.{Prepared, Columns}
use crashlens.Ingest.Envelope.Shape.{WellShaped}
use crashlens.Ingest.Envelope.Levels.{→LevelName}

present : (o : Option Json) (s : String) → or_null o ≡ str s → o ≡ some (str s)
present (some v) s h = cc
present none s h = cc

abbrev Done : Result → Type 0
Done r = (r ≡ duplicate) ⊎ ((s : Signal) × (r ≡ stored s))

transact-Done :
    (rt : Runtime) (now seen_at : ℕ) (project : String) (p : Prepared) (t : Tenant) (id : String)
    (c : Columns)
    → has_project t project ≡ true
    → has_partition t seen_at ≡ true
    → uuid_column rt p.event_id ≡ some id
    → other_columns rt p id ≡ some c
    → Done (transact rt now seen_at project (some p) t).0
transact-Done rt now seen_at project p t id c there day e f =
    elim (Bool-cases (any (is_event project id) t.events)) [
      | inl dup ↦ rw (e, dup) (inl refl)
      | inr new ↦ rw (e, new, there, f, day) (inr (_, refl))
    ]

-- The columns that the driver takes: a level of the five, and texts and a payload that the database
-- accepts.
columns_of :
    (rt : Runtime) (p : Prepared) (id level environment : String) (release : Option String)
    → p.level ≡ str level
    → any (λ l. l == level) level_names ≡ true
    → p.environment ≡ str environment
    → rt.is_text environment ≡ true
    → release_column rt p.release ≡ some release
    → rt.is_text p.title ≡ true
    → rt.is_jsonb p.payload ≡ true
    → (c : Columns) × (other_columns rt p id ≡ some c)
columns_of rt p id level environment release l l' e e' r title payload = (
  record { event_id = id; level = level; environment = environment; release = release },
  rw (l, other_columns, l', e, e', r, title, payload) refl,
)

module _ (rt : Runtime) (disk : Disk) (depth : ℕ) (maps_dir org project : String)
    (envelope : Fields) where
  -- The envelope that the job stores.
  abbrev pub prepared_envelope : Fields
  prepared_envelope =
      symbolicate_envelope disk depth (normalize_envelope envelope) org project maps_dir

  kept :
      (k : String)
      → ("message" == k) ≡ false
      → ("tags" == k) ≡ false
      → ("breadcrumbs" == k) ≡ false
      → ("exception" == k) ≡ false
      → get k prepared_envelope ≡ get k envelope
  kept k m t b x =
      get-symbolicate_envelope_other disk depth k (normalize_envelope envelope) org project maps_dir
        x
      ∙ get-normalize_envelope_other k envelope m t b x

  prepared_lem :
      (fingerprint : String) (id level environment : Json)
      → compute_fingerprint rt prepared_envelope ≡ some fingerprint
      → get "event_id" prepared_envelope ≡ some id
      → get "level" prepared_envelope ≡ some level
      → get "environment" prepared_envelope ≡ some environment
      → rt.copies depth (obj envelope) ≡ true
      → prepare rt disk depth maps_dir org project (obj envelope)
        ≡ some (record {
          fingerprint = fingerprint;
          title = derive_title rt prepared_envelope;
          event_id = id;
          level = level;
          environment = environment;
          release = get_or_null "release" prepared_envelope;
          payload = obj prepared_envelope;
        })
  unfolding prepare prepare_copy
  prepared_lem fingerprint id level environment e a b c copy =
      rw (prepare, copy, prepare_copy, e, a, b, c) refl

  unprepared :
      compute_fingerprint rt prepared_envelope ≡ none
      → rt.copies depth (obj envelope) ≡ true
      → prepare rt disk depth maps_dir org project (obj envelope) ≡ none
  unfolding prepare prepare_copy
  unprepared e copy = rw (prepare, copy, prepare_copy, e) refl

  -- An envelope that passed the validation is stored or is a duplicate: the job neither fails nor drops
  -- it, unless `compute_fingerprint` raises, which makes it poison. The conditions: the project is there,
  -- the stack holds the copy of the envelope, the driver takes the event id for a uuid, a partition holds
  -- the time of the event, the database accepts the texts and the payload, and the release is missing,
  -- null or an accepted text.
  pub process_event-accepted :
      (now : ℕ) (received_at event_id uuid environment : String) (release : Option String)
      (t : Tenant)
      → WellShaped rt envelope
      → has_project t project ≡ true
      → rt.copies depth (obj envelope) ≡ true
      → get_or_null "event_id" envelope ≡ str event_id
      → rt.pg_uuid event_id ≡ some uuid
      → has_partition t (coerce_timestamp rt now received_at) ≡ true
      → get_or_null "environment" envelope ≡ str environment
      → rt.is_text environment ≡ true
      → release_column rt (get_or_null "release" envelope) ≡ some release
      → rt.is_text (derive_title rt prepared_envelope) ≡ true
      → rt.is_jsonb (obj prepared_envelope) ≡ true
      → let r =
          (process_event rt disk depth maps_dir now org project received_at (obj envelope) t).0 in
        ((r ≡ poison) × (compute_fingerprint rt prepared_envelope ≡ none))
        ⊎ ((r ≡ duplicate) ⊎ ((s : Signal) × (r ≡ stored s)))
  unfolding process_event
  process_event-accepted now received_at event_id uuid environment release t w there copy id u day
        ee et er title payload =
      let (level, (level_is, level_ok)) = w.level in
      let a = kept "event_id" refl refl refl refl ∙ present _ event_id id in
      let b = kept "level" refl refl refl refl ∙ present _ level level_is in
      let c = kept "environment" refl refl refl refl ∙ present _ environment ee in
      let d = ap or_null (kept "release" refl refl refl refl) in
      elim (Option-cases (compute_fingerprint rt prepared_envelope)) [
        | inl e ↦ inl (rw (unprepared e copy) refl, e)
        | inr (fingerprint, e) ↦
            let p : Prepared = record {
              fingerprint = fingerprint;
              title = derive_title rt prepared_envelope;
              event_id = str event_id;
              level = str level;
              environment = str environment;
              release = get_or_null "release" prepared_envelope;
              payload = obj prepared_envelope;
            } in
            let (columns, taken) =
              columns_of rt p uuid level environment release refl (→LevelName level level_ok) refl
                et (ap (release_column rt) d ∙ er) title payload in
            let ready =
              prepared_lem fingerprint (str event_id) (str level) (str environment) e a b c copy in
            inr (
              rw ready (
                transact-Done rt now (coerce_timestamp rt now received_at) project p t uuid columns
                  there day u taken))
      ]
