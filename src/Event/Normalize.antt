-- ===== src/Event/Normalize.antt =====
-- The truncation of an envelope to the limits of the protocol: `truncate_string`,
-- `_normalize_frame`, `_normalize_exception` and `normalize_envelope` of
-- server/app/jobs/process_event.py.
pub mod Fits
pub mod Chain
mod Tests
use Prim.Native.String.{◌++◌}
use crashlens.Base.{
  ℕ, zero, suc, ◌-◌, String, Option, none, some, List, [], ◌∷◌, map, leb, last_of, count, take_text,
  if◌then◌else◌,
}
use crashlens.Json.{
  Json, str, arr, obj, Fields, end, field, get, assign, discard, revise, on_text, on_list, on_dict,
}

abbrev pub message_max : ℕ
message_max = 8192

abbrev pub tag_key_max : ℕ
tag_key_max = 32

abbrev pub tag_value_max : ℕ
tag_value_max = 200

abbrev pub filename_max : ℕ
filename_max = 256

abbrev pub function_max : ℕ
function_max = 256

abbrev pub context_line_max : ℕ
context_line_max = 256

abbrev pub max_breadcrumbs : ℕ
max_breadcrumbs = 100

abbrev pub max_frames : ℕ
max_frames = 128

abbrev pub max_cause_depth : ℕ
max_cause_depth = 5

abbrev pub truncation_marker : String
truncation_marker = "..."

unfoldable pub truncate_string : String → ℕ → String → String
truncate_string value limit marker =
    if leb (count value) limit then value else take_text (limit - count marker) value ++ marker

abbrev pub truncate : ℕ → String → String
truncate limit value = truncate_string value limit truncation_marker

-- Truncates a value that is a text, and leaves any other alone.
abbrev pub truncate_if_text : ℕ → Json → Json
truncate_if_text limit (str s) = str (truncate limit s)
truncate_if_text limit v = v

-- `if isinstance(out.get(key), str): out[key] = truncate_string(out[key], limit)`
abbrev pub cut_text : String → ℕ → Fields → Fields
cut_text key limit = revise key (on_text (λ s. str (truncate limit s)))

-- `if isinstance(lines, list): out[key] = [...]`
abbrev pub cut_lines : String → Fields → Fields
cut_lines key = revise key (on_list (map (truncate_if_text context_line_max)))

unfoldable pub normalize_frame : Json → Json
normalize_frame (obj frame) =
    let out = cut_text "filename" filename_max frame in
    let out = cut_text "function" function_max out in
    let out = cut_text "context_line" context_line_max out in
    obj (cut_lines "post_context" (cut_lines "pre_context" out))
normalize_frame frame = frame

-- The last frames of a stack trace, each normalized.
abbrev pub cap_frames : Fields → Fields
cap_frames = revise "frames" (on_list (λ frames. map normalize_frame (last_of max_frames frames)))

abbrev pub cap_stacktrace : Fields → Fields
cap_stacktrace = revise "stacktrace" (on_dict cap_frames)

-- The normalized cause, if there is a dict to follow; else the link is dropped.
abbrev pub followed : (Fields → Fields) → Option Json → Option Json
followed normalize (some (obj cause)) = some (obj (normalize cause))
followed normalize _ = none

abbrev pub put_cause : Option Json → Fields → Fields
put_cause none out = discard "cause" out
put_cause (some cause) out = assign "cause" cause out

-- The number is how many causes may still be followed, MAX_CAUSE_DEPTH - depth.
unfoldable pub normalize_exception : ℕ → Fields → Fields
normalize_exception zero exception = put_cause none (cap_stacktrace exception)
normalize_exception (suc deeper) exception =
    let out = cap_stacktrace exception in
    put_cause (followed (normalize_exception deeper) (get "cause" out)) out

-- The dict comprehension over the tags: a later entry of one key replaces the value of an earlier.
unfoldable pub cut_tags : Fields → Fields → Fields
cut_tags out end = out
cut_tags out (field key value rest) =
    cut_tags (assign (truncate tag_key_max key) (truncate_if_text tag_value_max value) out) rest

abbrev pub keep_newest : List Json → List Json
keep_newest = last_of max_breadcrumbs

-- The exception that the envelope presents has depth 1.
abbrev pub normalize_top : Fields → Fields
normalize_top = normalize_exception (max_cause_depth - 1)

unfoldable pub normalize_envelope : Fields → Fields
normalize_envelope envelope =
    let env = cut_text "message" message_max envelope in
    let env = revise "tags" (on_dict (cut_tags end)) env in
    let env = revise "breadcrumbs" (on_list keep_newest) env in
    revise "exception" (on_dict normalize_top) env
