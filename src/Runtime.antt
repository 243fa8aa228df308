-- ===== src/Runtime.antt =====
-- What the program takes from Python and its libraries, as a parameter of the model.
use Prim.Native.Char.{code}
use Prim.Native.String.{[], ◌∷◌}
use crashlens.Base.{ℕ, String, Bool, Option, ◌&&◌, ◌==◌, nat_eq, string_eq, if◌then◌else◌}
use crashlens.Json.{Json}

pub record Runtime : Type 0 where
  -- The three substitutions of `re` with the patterns of server/app/jobs/process_event.py.
  pub sub_uuid : String → String
  pub sub_hex : String → String
  pub sub_num : String → String
  -- `json.dumps` with sorted keys, without and with ASCII escapes left out.
  pub dumps_sorted : Json → String
  pub dumps : Json → String
  pub sha256 : String → String
  -- `str(v)`, as an f-string renders it.
  pub py_str : Json → String
  -- `datetime.fromisoformat`, as microseconds since the start of the year 1, a naive time read as UTC.
  pub from_iso : String → Option ℕ
  -- `uuid.UUID(s)` in its canonical text; none where it raises.
  pub uuid : String → Option String
  -- What the database driver makes of a text that is given for a uuid; none where it refuses it.
  pub pg_uuid : String → Option String
  -- Whether `copy.deepcopy` ends in the stack that is left.
  pub copies : ℕ → Json → Bool
  -- What PostgreSQL takes for a text and for jsonb: no NUL, and no NaN.
  pub is_text : String → Bool
  pub is_jsonb : Json → Bool

-- `value[:-1] + "+00:00" if value.endswith("Z") else value`, before a timestamp is parsed.
unfoldable pub iso_candidate : String → String
iso_candidate [] = ""
iso_candidate (c ∷ s) =
    let rest = c ∷ iso_candidate s in if s == "" && code c == b'Z' then "+00:00" else rest
