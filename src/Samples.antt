-- ===== src/Samples.antt =====
-- Concrete libraries, rows and envelopes for the tests of the other modules.
use Prim.Native.String
use crashlens.Base.{ℕ, String, true, none, some, List, [], ◌∷◌, ◌==◌, string_eq, refl, inr, arith}
use crashlens.Json.{Json, str, obj, Fields, end, field}
use crashlens.Runtime.{Runtime}
use crashlens.RateLimit.{no_buckets}
use crashlens.SourceMap.Symbolicate.{Disk, absent}
use crashlens.Store.{Issue, Event, Tenant, resolved}
use crashlens.Store.Coherence.{IsCoherent}
use crashlens.Event.Rows.{Prepared, Columns}
use crashlens.Ingest.Body.{Zlib}
use crashlens.Ingest.Endpoint.{loaded, Web, World, Moment, Request}

abbrev shown : Json → String
shown (str s) = s
shown _ = "json"

-- Every text is its own UUID, and every timestamp is 14 days after the start.
abbrev pub plain_runtime : Runtime
plain_runtime = record {
  sub_uuid = λ s. s;
  sub_hex = λ s. s;
  sub_num = λ s. s;
  dumps_sorted = shown;
  dumps = shown;
  sha256 = λ s. s;
  py_str = shown;
  from_iso = λ s. some 1_209_600_000_000;
  uuid = λ s. some s;
  pg_uuid = λ s. some s;
  copies = λ depth v. true;
  is_text = λ s. true;
  is_jsonb = λ v. true;
}

abbrev pub no_maps : Disk
no_maps = record {
  urlsafe_b64encode = λ s. s;
  path_join = λ s t. String.◌++◌ s t;
  path_basename = λ s. s;
  file = λ s. absent;
}

abbrev pub sdk : Fields
sdk = field "name" (str "crashlens.python") (field "version" (str "1.0") end)

abbrev pub envelope : Fields
envelope = field "event_id" (str "e-2") (
    field "timestamp" (str "2026-07-04T00:00:00Z") (
      field "platform" (str "python") (
        field "level" (str "error") (
          field "environment" (str "production") (
            field "sdk" (obj sdk)
              (field "release" (str "1.1") (field "message" (str "boom") end)))))))

abbrev pub known : Issue
known = record {
  id = 0;
  project = "p";
  fingerprint = "f";
  title = "boom";
  level = "error";
  status = resolved;
  first_seen = 5;
  last_seen = 5;
  event_count = 1;
  assigned_to = none;
  resolved_in_release = some "1.0";
  regressed_in_release = none;
}

abbrev pub seen : Event
seen = record {
  project = "p";
  issue_id = 0;
  event_id = "e-1";
  received_at = 5;
  environment = "production";
  release = some "1.0";
  level = "error";
  payload = obj end;
}

abbrev pub rows : Tenant
rows = record {
  projects = "p" ∷ [];
  members = "u" ∷ [];
  issues = known ∷ [];
  releases = record { project = "p"; version = "1.0"; created_at = 5 } ∷ [];
  events = seen ∷ [];
  comments = [];
  audits = [];
  next_id = 1;
  partitions = (0, 86_400_000_000) ∷ (1_209_600_000_000, 1_296_000_000_000) ∷ [];
}

abbrev pub prepared : Prepared
prepared = record {
  fingerprint = "f";
  title = "boom";
  event_id = str "e-2";
  level = str "error";
  environment = str "production";
  release = str "1.1";
  payload = obj envelope;
}

abbrev pub columns : Columns
columns = record {
  event_id = "e-2";
  level = "error";
  environment = "production";
  release = some "1.1";
}

-- A stream that gives its input back in one chunk.
abbrev pub plain_zlib : Zlib
plain_zlib = record {
  Object = List ℕ;
  fresh = [];
  decompress = λ object input n. some (input, []);
  unconsumed_tail = λ object. object;
  flush = λ object. some [];
}

abbrev pub plain_web : Web
plain_web = record {
  runtime = plain_runtime;
  zlib = plain_zlib;
  loads = λ body. loaded (obj envelope);
  holds_gzip = λ encoding. encoding == "gzip";
}

abbrev pub world : World
world = record {
  keys =
      record { id = "k"; public_key = "pk"; org_id = "o"; project_id = "p"; status = "active" }
      ∷ [];
  projects = record { id = "p"; sampling_rate = 10 } ∷ [];
  buckets = no_buckets;
  queue = [];
}

abbrev pub moment : Moment
moment = record {
  lua = record { time = λ n. n; tokens = λ n. n };
  hz = 1000;
  now = 7;
  received_at = "now";
  scale = 10;
  roll = 3;
}

abbrev pub request : Request
request = record { public_key = some "pk"; encoding = "gzip"; body = 1 ∷ 2 ∷ [] }

pub rows-IsCoherent : IsCoherent rows
rows-IsCoherent = record {
  apart = (tt, tt);
  counted = (refl, tt);
  old_issues = (omega arith, tt);
  old_events = (omega arith, tt);
  marks = (inr refl, tt);
}
