-- ===== src/Event/Fingerprint.antt =====
-- The grouping of events: `normalize_message`, `walk_to_root_cause`, `compute_fingerprint`,
-- `derive_title` and `_coerce_timestamp` of server/app/jobs/process_event.py.
pub mod Grouping
mod Tests
use Prim.Native.Char.{Char, code}
use Prim.Native.String.{◌++◌}
use Prim.Native.String
use mathlib.Core.Option
use crashlens.Base.{
  ℕ, zero, suc, ◌-◌, String, Bool, true, false, ◌||◌, ◌&&◌, Option, none, some, List, [], ◌∷◌, map,
  leb, ◌==◌, string_eq, nat_eq, last_of, keep_if, before, count, take_text, if◌then◌else◌,
}
use crashlens.Json.{
  Json, null, bool, int, float, str, arr, obj, Items, Fields, end, field, get, get_or_null, truthy,
  as_obj, to_list, of_list,
}
use crashlens.Json.Numbers.{pos}
use crashlens.Runtime.{Runtime, iso_candidate}
use crashlens.Event.Normalize.{truncate, truncate_string, max_cause_depth}

abbrev pub title_max : ℕ
title_max = 200

abbrev pub fingerprint_frame_limit : ℕ
fingerprint_frame_limit = 8

pub normalize_message : Runtime → Json → String
normalize_message rt (str message) = rt.sub_num (rt.sub_hex (rt.sub_uuid message))
normalize_message rt _ = ""

-- The loop follows at most so many links.
unfoldable pub walk_from : ℕ → Fields → Fields
walk_from zero current = current
walk_from (suc n) current = elim (get "cause" current) [
  | some (obj cause) ↦ walk_from n cause
  | _ ↦ current
]

unfoldable pub walk_to_root_cause : Fields → Fields
unfolding walk_from
walk_to_root_cause exception = walk_from max_cause_depth exception

-- The dicts among the items: what iteration over a list gives. The keys of a dict and the
-- characters of a text are no dicts; any other value cannot be iterated and raises.
abbrev pub dicts : List Json → List Fields
dicts [] = []
dicts (obj d ∷ vs) = d ∷ dicts vs
dicts (v ∷ vs) = dicts vs

abbrev pub dict_frames : Option Json → Option (List Fields)
dict_frames none = some []
dict_frames (some (arr frames)) = some (dicts (to_list frames))
dict_frames (some (obj d)) = some []
dict_frames (some (str s)) = some []
dict_frames (some _) = none

abbrev pub stack_frames : Option Json → Option (List Fields)
stack_frames (some (obj stacktrace)) = dict_frames (get "frames" stacktrace)
stack_frames _ = some []

-- A frame with no `in_app` counts as the application's.
abbrev pub in_app_value : Option Json → Bool
in_app_value none = true
in_app_value (some v) = truthy v

abbrev pub is_in_app : Fields → Bool
is_in_app frame = in_app_value (get "in_app" frame)

abbrev pub or_all : List Fields → List Fields → List Fields
or_all [] all_frames = all_frames
or_all (f ∷ fs) all_frames = f ∷ fs

abbrev pub selected : List Fields → List Fields
selected frames = last_of fingerprint_frame_limit (or_all (keep_if is_in_app frames) frames)

abbrev pub place : Fields → Json
place f =
    arr (Items.cons (get_or_null "filename" f) (Items.cons (get_or_null "function" f) Items.nil))

abbrev pub exception_signature : Json → Json → List Json → Json
exception_signature platform type places = obj (
    field "v" (int (pos 1))
      (field "platform" platform (field "type" type (field "frames" (arr (of_list places)) end))))

abbrev pub or_empty : Json → Json
or_empty v = if truthy v then v else str ""

abbrev pub message_signature : Runtime → Fields → Json
message_signature rt normalized = obj (
    field "v" (int (pos 1)) (
      field "platform" (get_or_null "platform" normalized) (
        field "level" (get_or_null "level" normalized) (
          field "message" (str (normalize_message rt (or_empty (get_or_null "message" normalized))))
            end))))

abbrev pub hashed : Runtime → Json → String
hashed rt signature = rt.sha256 (rt.dumps_sorted signature)

abbrev pub exception_fingerprint : Runtime → Fields → Fields → Option String
exception_fingerprint rt normalized root =
    let signature =
      exception_signature (get_or_null "platform" normalized) (get_or_null "type" root) in
    Option.map (λ frames. hashed rt (signature (map place (selected frames))))
      (stack_frames (get "stacktrace" root))

-- none: the iteration over the frames raised.
unfoldable pub compute_fingerprint : Runtime → Fields → Option String
compute_fingerprint rt normalized = elim (get "exception" normalized) [
  | some (obj exception) ↦ exception_fingerprint rt normalized (walk_to_root_cause exception)
  | _ ↦ some (hashed rt (message_signature rt normalized))
]

-- The characters at which `str.splitlines` breaks.
abbrev pub is_line_break : Char → Bool
is_line_break c =
    let n = code c in
    leb 10 n && leb n 13 || leb 28 n && leb n 30 || n == 133 || n == 8232 || n == 8233

-- `v.splitlines()[0]` of a text that is not empty, and "" else.
abbrev pub first_line : Json → String
first_line (str s) = before is_line_break s
first_line _ = ""

abbrev pub exception_title : Runtime → Fields → String
exception_title rt exception =
    let kind = get_or_null "type" exception in
    let exc_type = if truthy kind then rt.py_str kind else "Error" in
    let line = first_line (get_or_null "value" exception) in
    if line == "" then exc_type else exc_type ++ ": " ++ line

unfoldable pub derive_title : Runtime → Fields → String
derive_title rt normalized =
    let title : String = elim (get "exception" normalized) [
      | some (obj exception) ↦ exception_title rt exception
      | _ ↦ first_line (get_or_null "message" normalized)
    ] in
    truncate title_max title

-- The clock is asked where the text is no timestamp.
abbrev pub coerce_timestamp : Runtime → ℕ → String → ℕ
coerce_timestamp rt now value = elim (rt.from_iso (iso_candidate value)) [ none ↦ now | some t ↦ t ]
