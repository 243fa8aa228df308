-- ===== src/Ingest/Endpoint.antt =====
-- `ingest_event` of server/app/routes/ingest.py with `resolve_dsn_key` of server/app/ingest.py. A
-- request runs alone; a sampling rate and a roll are counted in parts of `scale`.
pub mod Queue
pub mod Order
use mathlib.Core.Option
use crashlens.Base.{
  ℕ, String, Bool, true, false, not, ◌&&◌, Option, none, some, is_some, List, [], ◌∷◌, ◌++◌, length,
  find_if, ltb, leb, ◌==◌, string_eq, if◌then◌else◌,
}
use crashlens.Json.{Json, obj, Fields, get_or_null}
use crashlens.Runtime.{Runtime}
use crashlens.RateLimit.{Lua, Redis, Decision, check_rate_limit}
use crashlens.Ingest.Body.{
  Zlib, Unpacked, bytes, payload_too_large, malformed_body, out_of_fuel, decompress_gzip,
  max_decompressed_bytes,
}
use crashlens.Ingest.Envelope.{Verdict, valid, invalid_envelope, type_error, validate_envelope}

-- A row of `dsn_keys`, and one of `projects` with the rate of its events that are kept.
pub record DsnKey : Type 0 where
  pub id : String
  pub public_key : String
  pub org_id : String
  pub project_id : String
  pub status : String

pub record Project : Type 0 where
  pub id : String
  pub sampling_rate : ℕ

pub record DsnKeyRecord : Type 0 where
  pub id : String
  pub org_id : String
  pub project_id : String
  pub status : String
  pub sampling_rate : ℕ

abbrev pub join_project : List Project → Option DsnKey → Option DsnKeyRecord
join_project projects none = none
join_project projects (some k) =
    Option.map
      (λ (p : Project). record {
        id = k.id;
        org_id = k.org_id;
        project_id = k.project_id;
        status = k.status;
        sampling_rate = p.sampling_rate;
      })
      (find_if (λ (p : Project). p.id == k.project_id) projects)

-- `public_key` is unique in `dsn_keys`.
unfoldable pub resolve_dsn_key : List DsnKey → List Project → String → Option DsnKeyRecord
resolve_dsn_key keys projects public_key =
    join_project projects (find_if (λ (k : DsnKey). k.public_key == public_key) keys)

-- What `json.loads` does: a value, an error that the handler answers with a 400, or RecursionError.
pub data Loaded : Type 0 where
  loaded : Json → Loaded
  malformed too_deep : Loaded

-- What the handler takes from Python besides `Runtime`: `json.loads` on bytes and whether
-- `"gzip" in encoding.lower()`.
pub record Web : Type 1 where
  pub runtime : Runtime
  pub zlib : Zlib
  pub loads : List ℕ → Loaded
  pub holds_gzip : String → Bool

pub record Request : Type 0 where
  -- The header `X-Crashlens-Key`.
  pub public_key : Option String
  pub encoding : String
  pub body : List ℕ

-- The keyword arguments of the job.
pub record Job : Type 0 where
  pub envelope : Fields
  pub org_id : String
  pub project_id : String
  pub dsn_key_id : String
  pub received_at : String

-- What the handler reads and writes: the tables, the buckets and the job queue.
pub record World : Type 0 where
  pub keys : List DsnKey
  pub projects : List Project
  pub buckets : Redis
  pub queue : List Job

-- A decision that is logged, the status code and the Retry-After; a 202 with an id or null; an
-- exception that the handler lets through.
pub data Response : Type 0 where
  rejected : String → ℕ → Option ℕ → Response
  accepted : Json → Response
  sampled : Response
  crashed : Response

-- What Lua prints, the clock of the limiter, its ticks to the second, the text of the time and the roll.
pub record Moment : Type 0 where
  pub lua : Lua
  pub hz : ℕ
  pub now : ℕ
  pub received_at : String
  pub scale : ℕ
  pub roll : ℕ

unfoldable pub sampled_out : ℕ → ℕ → ℕ → Bool
sampled_out scale roll sampling_rate =
    if leb scale sampling_rate then false else leb sampling_rate roll

abbrev pub enqueue : Moment → DsnKeyRecord → Fields → World → Response × World
enqueue m key envelope w = (
  accepted (get_or_null "event_id" envelope),
  record w {
    queue =
        w.queue
        ++ record {
          envelope = envelope;
          org_id = key.org_id;
          project_id = key.project_id;
          dsn_key_id = key.id;
          received_at = m.received_at;
        }
          ∷ [];
  },
)

abbrev pub on_verdict : Moment → DsnKeyRecord → Fields → Verdict → World → Response × World
on_verdict m key envelope valid w = enqueue m key envelope w
on_verdict m key envelope (invalid_envelope field) w = (rejected "invalid_envelope" 400 none, w)
on_verdict m key envelope type_error w = (crashed, w)

-- Step 5: parse and validate. JSON that is nested too deep for the parser is not caught.
abbrev pub on_json : Web → Moment → DsnKeyRecord → Loaded → World → Response × World
on_json web m key malformed w = (rejected "malformed_json" 400 none, w)
on_json web m key (loaded (obj envelope)) w =
    on_verdict m key envelope (validate_envelope web.runtime envelope) w
on_json web m key too_deep w = (crashed, w)
on_json web m key (loaded _) w = (rejected "invalid_envelope" 400 none, w)

abbrev pub on_unpacked : Web → Moment → DsnKeyRecord → Unpacked → World → Response × World
on_unpacked web m key (bytes body) w = on_json web m key (web.loads body) w
on_unpacked web m key payload_too_large w = (rejected "too_large" 413 none, w)
on_unpacked web m key malformed_body w = (rejected "malformed_gzip" 400 none, w)
on_unpacked web m key out_of_fuel w = (crashed, w)

-- Step 4: read the body.
abbrev pub read_body : Web → Moment → DsnKeyRecord → Request → World → Response × World
read_body web m key request w =
    if web.holds_gzip request.encoding
    then on_unpacked web m key (decompress_gzip web.zlib request.body) w
    else if ltb max_decompressed_bytes (length request.body)
    then (rejected "too_large" 413 none, w)
    else on_json web m key (web.loads request.body) w

-- Steps 2 and 3: the token is spent before the body is read, then the project's sampling.
abbrev pub on_key : Web → Moment → DsnKeyRecord → Request → World → Response × World
on_key web m key request w =
    let (decision, buckets) = check_rate_limit m.lua m.hz w.buckets key.id m.now in
    let w' = record w { buckets = buckets } in
    if decision.allowed
    then (if sampled_out m.scale m.roll key.sampling_rate
        then (sampled, w')
        else read_body web m key request w')
    else (rejected "rate_limited" 429 (some decision.retry_after), w')

abbrev pub on_record :
    Web → Moment → String → Option DsnKeyRecord → Request → World → Response × World
on_record web m project_id none request w = (rejected "invalid_key" 401 none, w)
on_record web m project_id (some key) request w =
    if key.status == "active"
    then (if key.project_id == project_id
        then on_key web m key request w
        else (rejected "project_mismatch" 403 none, w))
    else (rejected "invalid_key" 401 none, w)

abbrev pub on_public_key :
    Web → Moment → String → Option String → Request → World → Response × World
on_public_key web m project_id none request w = (rejected "missing_key" 401 none, w)
on_public_key web m project_id (some public_key) request w =
    if public_key == ""
    then (rejected "missing_key" 401 none, w)
    else on_record web m project_id (resolve_dsn_key w.keys w.projects public_key) request w

unfoldable pub ingest_event : Web → Moment → String → Request → World → Response × World
ingest_event web m project_id request w =
    on_public_key web m project_id request.public_key request w
