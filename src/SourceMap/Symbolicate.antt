-- ===== src/SourceMap/Symbolicate.antt =====
-- The path helpers, the loading of maps and the symbolication of server/app/sourcemaps.py.
pub mod Frame
mod Tests
use Prim.Native.Char.{Char, code}
use Prim.Native.String
use mathlib.Core.Option
use text.Mathlib.Text.{find?}
use crashlens.Base.{
  ℕ, zero, suc, ◌+◌, String, Bool, true, false, ◌&&◌, ◌||◌, Option, none, some, is_some, List, [],
  ◌∷◌, map, ◌==◌, nat_eq, string_eq, before, if◌then◌else◌,
}
use crashlens.Json.{
  Json, null, bool, int, float, str, arr, obj, Items, Fields, get, get_or_null, assign, truthy,
  as_int, to_list, of_list,
}
use crashlens.Json.Numbers.{ℤ, pos, negsuc, ◌+ℤ◌, ◌-ℤ◌, leb_ℤ}
use crashlens.SourceMap.Mapping.{
  Segment, SourceMap, Context, Parse, parsed, value_error, type_error, lookup, in_range,
  source_context, parse_source_map, split,
}

-- What stands at a path: nothing, bytes that are no readable JSON, or a document.
pub data File : Type 0 where
  absent unreadable : File
  document : Json → File

-- The parts of Python's library that the paths go through, and the files on disk.
pub record Disk : Type 0 where
  pub urlsafe_b64encode : String → String
  pub path_join : String → String → String
  pub path_basename : String → String
  pub file : String → File

abbrev pub append : String → String → String
append s t = String.◌++◌ s t

-- `s.rstrip(c)`.
unfoldable pub strip_right : ℕ → String → String
strip_right n String.[] = ""
strip_right n (String.◌∷◌ c s) =
    let rest = strip_right n s in if rest == "" && code c == n then "" else String.◌∷◌ c rest

abbrev pub contains : String → String → Bool
contains s part = is_some (find? s part)

abbrev pub has_code : ℕ → String → Bool
has_code n String.[] = false
has_code n (String.◌∷◌ c s) = code c == n || has_code n s

-- `s.endswith(part)`.
abbrev pub ends_with : String → String → Bool
ends_with String.[] part = part == ""
ends_with (String.◌∷◌ c s) part = String.◌∷◌ c s == part || ends_with s part

abbrev pub last_or : String → List String → String
last_or d [] = d
last_or d (x ∷ xs) = last_or x xs

abbrev pub is_code : ℕ → Char → Bool
is_code n c = code c == n

unfoldable pub map_candidates : String → List String
map_candidates basename =
    if ends_with basename ".map" then basename ∷ [] else append basename ".map" ∷ []

-- `str(v) if v else other` of the original path.
abbrev pub original_path : String → Fields → Json
original_path source frame = if source == "" then get_or_null "filename" frame else str source

abbrev pub is_library : Json → Bool
is_library (str path) = contains path "node_modules"
is_library _ = false

abbrev pub texts : List String → Json
texts lines = arr (of_list (map str lines))

abbrev pub put_name : Option String → Fields → Fields
put_name none out = out
put_name (some name) out = if name == "" then out else assign "function" (str name) out

abbrev pub put_library : Json → Fields → Fields
put_library path out = if is_library path then assign "in_app" (bool false) out else out

abbrev pub put_context : Option Context → Fields → Fields
put_context none out = out
put_context (some c) out =
    assign "post_context" (texts c.post_context)
      (assign "pre_context" (texts c.pre_context) (assign "context_line" (str c.context_line) out))

abbrev pub name_of : SourceMap → Segment → Option String
name_of source_map seg = elim seg.name_index [ none ↦ none | some n ↦ in_range source_map.names n ]

-- The frame rewritten to a position of the map, whose source has the given path.
unfoldable pub rewrite_frame : SourceMap → Segment → String → Fields → Fields
rewrite_frame source_map seg source frame =
    let path = original_path source frame in
    let out = assign "raw_filename" (get_or_null "filename" frame) frame in
    let out = assign "raw_lineno" (get_or_null "lineno" frame) out in
    let out = assign "filename" path out in
    let out = assign "lineno" (int (seg.orig_line +ℤ pos 1)) out in
    let out = assign "colno" (int (seg.orig_col +ℤ pos 1)) out in
    let out = put_library path (put_name (name_of source_map seg) out) in
    put_context (source_context source_map seg.src_index seg.orig_line) out

abbrev pub at_position : SourceMap → Fields → Option Segment → Fields
at_position source_map frame none = frame
at_position source_map frame (some seg) = elim (in_range source_map.sources seg.src_index) [
  | none ↦ frame
  | some source ↦ rewrite_frame source_map seg source frame
]

abbrev pub floor_zero : ℤ → ℤ
floor_zero (pos n) = pos n
floor_zero (negsuc n) = pos 0

unfoldable pub symbolicate_frame : Fields → SourceMap → Fields
unfolding rewrite_frame
symbolicate_frame frame source_map = elim (as_int (get_or_null "lineno" frame)) [
  | none ↦ frame
  | some lineno ↦ elim (as_int (get_or_null "colno" frame)) [
    | none ↦ frame
    | some colno ↦
        at_position source_map frame
          (lookup source_map (lineno -ℤ pos 1) (floor_zero (colno -ℤ pos 1)))
  ]
]

-- none: an exception that only the outermost function catches.
abbrev pub usable : Parse SourceMap → Option (Option SourceMap)
usable (parsed m) = some (some m)
usable value_error = some none
usable type_error = none

abbrev pub or_envelope : Fields → Option Fields → Fields
or_envelope envelope none = envelope
or_envelope envelope (some exception) = assign "exception" (obj exception) envelope

abbrev pub is_javascript : Json → Bool
is_javascript (str platform) = platform == "javascript"
is_javascript _ = false

-- Only an exception that is a dict, of a release that is a text and not empty, is rewritten.
abbrev pub symbolicated :
    (String → Fields → Option Fields) → Fields → Option Json → Option Json → Fields
symbolicated symbolicate envelope (some (obj exception)) (some (str release)) =
    if release == "" then envelope else or_envelope envelope (symbolicate release exception)
symbolicated symbolicate envelope _ _ = envelope

module _ (disk : Disk) where
  unfoldable pub release_dirname : String → String
  unfolding strip_right
  release_dirname release = strip_right b'=' (disk.urlsafe_b64encode release)

  unfoldable pub safe_basename : String → Option String
  safe_basename name =
      let base = disk.path_basename name in
      if name == "" || base == "" || base == "." || base == ".."
      then none
      else if contains base "/" || contains base "\\" || contains base ".." || has_code 0 base
      then none
      else some base

  unfoldable pub basename_from_frame_filename : Json → Option String
  unfolding safe_basename split
  basename_from_frame_filename (str filename) =
      let tail = before (is_code b'#') (before (is_code b'?') filename) in
      if filename == "" then none else safe_basename (last_or "" (split b'/' tail))
  basename_from_frame_filename _ = none

  abbrev pub project_maps_dir : String → String → String → String
  project_maps_dir sourcemaps_dir org_id project_id =
      disk.path_join (disk.path_join sourcemaps_dir org_id) project_id

  abbrev pub release_maps_dir : String → String → String → String → String
  release_maps_dir sourcemaps_dir org_id project_id release =
      disk.path_join (project_maps_dir sourcemaps_dir org_id project_id) (release_dirname release)

  -- The parse is cached by path and modification time, so the cache changes no result.
  unfoldable pub load_source_map : String → Option (Option SourceMap)
  load_source_map path = elim (disk.file path) [
    | absent ↦ some none
    | unreadable ↦ some none
    | document raw ↦ usable (parse_source_map raw)
  ]

  -- The first candidate that has a map.
  unfoldable pub first_map : String → List String → Option (Option SourceMap)
  unfolding load_source_map
  first_map release_dir [] = some none
  first_map release_dir (candidate ∷ others) =
      let more = first_map release_dir others in
      elim (load_source_map (disk.path_join release_dir candidate)) [
        | none ↦ none
        | some none ↦ more
        | some (some m) ↦ some (some m)
      ]

  abbrev pub map_for : String → Option String → Option (Option SourceMap)
  map_for release_dir none = some none
  map_for release_dir (some basename) = first_map release_dir (map_candidates basename)

  unfoldable pub symbolicate_item : String → Json → Option Json
  unfolding basename_from_frame_filename first_map symbolicate_frame map_candidates
  symbolicate_item release_dir (obj frame) =
      elim (map_for release_dir (basename_from_frame_filename (get_or_null "filename" frame))) [
        | none ↦ none
        | some none ↦ some (obj frame)
        | some (some m) ↦ some (obj (symbolicate_frame frame m))
      ]
  symbolicate_item release_dir frame = some frame

  abbrev pub cons_item : Option Json → Option (List Json) → Option (List Json)
  cons_item (some v) (some vs) = some (v ∷ vs)
  cons_item _ _ = none

  unfoldable pub symbolicate_items : String → List Json → Option (List Json)
  unfolding symbolicate_item
  symbolicate_items release_dir [] = some []
  symbolicate_items release_dir (frame ∷ frames) =
      cons_item (symbolicate_item release_dir frame) (symbolicate_items release_dir frames)

  abbrev pub put_frames : Fields → Fields → Option (List Json) → Option Fields
  put_frames exception stacktrace none = none
  put_frames exception stacktrace (some frames) =
      some (assign "stacktrace" (obj (assign "frames" (arr (of_list frames)) stacktrace)) exception)

  unfoldable pub symbolicate_stack : String → Fields → Option Fields
  unfolding symbolicate_items
  symbolicate_stack release_dir exception = elim (get "stacktrace" exception) [
    | some (obj stacktrace) ↦ elim (get "frames" stacktrace) [
      | some (arr frames) ↦
          put_frames exception stacktrace (symbolicate_items release_dir (to_list frames))
      | _ ↦ some exception
    ]
    | _ ↦ some exception
  ]

  abbrev pub with_cause : (Fields → Option Fields) → Fields → Option Json → Option Fields
  with_cause symbolicate out (some (obj cause)) =
      Option.map (λ c. assign "cause" (obj c) out) (symbolicate cause)
  with_cause symbolicate out _ = some out

  -- The number is the depth that Python's stack has left: below it the RecursionError comes.
  unfoldable pub symbolicate_exception : ℕ → String → Fields → Option Fields
  unfolding symbolicate_stack
  symbolicate_exception zero release_dir exception = none
  symbolicate_exception (suc depth) release_dir exception =
      elim (symbolicate_stack release_dir exception) [
        | none ↦ none
        | some out ↦ with_cause (symbolicate_exception depth release_dir) out (get "cause" out)
      ]

  -- Whatever is raised inside, the envelope comes back as it was.
  unfoldable pub symbolicate_envelope : ℕ → Fields → String → String → String → Fields
  unfolding symbolicate_exception release_dirname
  symbolicate_envelope depth envelope org_id project_id sourcemaps_dir =
      let symbolicate = λ (release : String).
        symbolicate_exception depth (release_maps_dir sourcemaps_dir org_id project_id release) in
      if is_javascript (get_or_null "platform" envelope)
      then symbolicated symbolicate envelope (get "exception" envelope) (get "release" envelope)
      else envelope
