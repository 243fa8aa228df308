-- ===== src/SourceMap/Mapping.antt =====
-- `SourceMap` and `parse_source_map` of server/app/sourcemaps.py. Texts that are split are lists of
-- code points; a dict of rows is an association list in the order of insertion.
pub mod Lookup
pub mod Sorted
mod Tests
use Prim.Native.Char.{Char, code}
use mathlib.Core.Option
use Prim.Native.String
use crashlens.Base.{
  ℕ, zero, suc, ◌+◌, ◌-◌, String, Bool, true, false, ◌&&◌, Option, none, some, List, [], ◌∷◌, ◌++◌,
  map, leb, ltb, ◌==◌, nat_eq, string_eq, length, get_elem?, take, drop, if◌then◌else◌,
}
use crashlens.Json.{
  Json, null, bool, int, float, str, arr, obj, Items, Fields, get, get_or_null, truthy, to_list,
  as_str,
}
use crashlens.Json.Numbers.{ℤ, pos, negsuc, ◌+ℤ◌, leb_ℤ, ltb_ℤ}
use crashlens.SourceMap.Vlq.{decode_vlq}

abbrev pub context_window : ℕ
context_window = 5

-- `(gen_col, src_index, orig_line, orig_col, name_index_or_None)`.
pub record Segment : Type 0 where
  pub gen_col : ℤ
  pub src_index : ℤ
  pub orig_line : ℤ
  pub orig_col : ℤ
  pub name_index : Option ℤ

pub record SourceMap : Type 0 where
  pub sources : List String
  pub sources_content : List (Option String)
  pub names : List String
  pub lines : List (ℕ × List Segment)

pub row_at : ℕ → List (ℕ × List Segment) → List Segment
row_at n [] = []
row_at n ((m, row) ∷ lines) = if m == n then row else row_at n lines

-- The loop of `lookup`: the last segment that starts at or before the column, up to the first that
-- starts after it.
pub scan : ℤ → Option Segment → List Segment → Option Segment
scan gen_col chosen [] = chosen
scan gen_col chosen (seg ∷ segments) =
    let more = scan gen_col (some seg) segments in
    if leb_ℤ seg.gen_col gen_col then more else chosen

-- A line before the first has no row.
unfoldable pub lookup : SourceMap → ℤ → ℤ → Option Segment
unfolding row_at scan
lookup source_map (pos gen_line) gen_col = scan gen_col none (row_at gen_line source_map.lines)
lookup source_map (negsuc n) gen_col = none

-- `xs[i]` for `0 <= i < len(xs)`, and none out of that range.
abbrev pub in_range {ℓ} : {A : Type ℓ} → List A → ℤ → Option A
in_range xs (pos n) = get_elem? xs n
in_range xs (negsuc n) = none

-- The code points of a text.
abbrev pub codes : String → List ℕ
codes String.[] = []
codes (String.◌∷◌ c s) = code c ∷ codes s

abbrev pub push_first : Char → List String → List String
push_first c [] = (String.◌∷◌ c "") ∷ []
push_first c (part ∷ parts) = (String.◌∷◌ c part) ∷ parts

-- `text.split(sep)`: one more part than there are separators.
unfoldable pub split : ℕ → String → List String
split sep String.[] = "" ∷ []
split sep (String.◌∷◌ c s) =
    let parts = split sep s in if code c == sep then "" ∷ parts else push_first c parts

-- A source's lines around one.
pub record Context : Type 0 where
  pub context_line : String
  pub pre_context : List String
  pub post_context : List String

abbrev pub context_at : List String → ℕ → String → Context
context_at src_lines n line = record {
  context_line = line;
  pre_context = drop (n - context_window) (take n src_lines);
  post_context = take context_window (drop (n + 1) src_lines);
}

abbrev pub context_in : String → ℤ → Option Context
context_in content (negsuc n) = none
context_in content (pos n) =
    let src_lines = split 10 content in
    elim (get_elem? src_lines n) [ none ↦ none | some line ↦ some (context_at src_lines n line) ]

-- none: `(None, [], [])`.
unfoldable pub source_context : SourceMap → ℤ → ℤ → Option Context
source_context source_map src_index orig_line =
    elim (in_range source_map.sources_content src_index) [
      | some (some content) ↦ context_in content orig_line
      | _ ↦ none
    ]

-- The indexes that run on through the whole file.
pub record Cursor : Type 0 where
  pub src_index : ℤ
  pub orig_line : ℤ
  pub orig_col : ℤ
  pub name_index : ℤ

abbrev pub start : Cursor
start = record { src_index = pos 0; orig_line = pos 0; orig_col = pos 0; name_index = pos 0 }

-- The state of a line: the column runs on within it.
pub record Line : Type 0 where
  pub cursor : Cursor
  pub gen_col : ℤ
  pub row : List Segment

abbrev pub advance : Cursor → ℤ → ℤ → ℤ → Cursor
advance c source line column = record c {
  src_index = c.src_index +ℤ source;
  orig_line = c.orig_line +ℤ line;
  orig_col = c.orig_col +ℤ column;
}

abbrev pub bound_segment : Line → ℤ → Cursor → Option ℤ → Line
bound_segment l gen_col c name = record {
  cursor = c;
  gen_col = gen_col;
  row =
      l.row
      ++ record {
        gen_col = gen_col;
        src_index = c.src_index;
        orig_line = c.orig_line;
        orig_col = c.orig_col;
        name_index = name;
      }
        ∷ [];
}

-- The fields of one segment. One, two or three fields move the column alone.
unfoldable pub read_fields : Line → List ℤ → Line
read_fields l [] = l
read_fields l (column ∷ source ∷ line ∷ col ∷ []) =
    bound_segment l (l.gen_col +ℤ column) (advance l.cursor source line col) none
read_fields l (column ∷ source ∷ line ∷ col ∷ name ∷ rest) =
    let moved = advance l.cursor source line col in
    let named = moved.name_index +ℤ name in
    bound_segment l (l.gen_col +ℤ column) (record moved { name_index = named }) (some named)
read_fields l (column ∷ rest) = record l { gen_col = l.gen_col +ℤ column }

-- The segments of one line, an empty one skipped; none where a segment is malformed.
unfoldable pub read_segments : Line → List String → Option Line
read_segments l [] = some l
read_segments l (segment ∷ segments) =
    let skip = read_segments l segments in
    let read : Option Line = elim (decode_vlq (codes segment)) [
      | none ↦ none
      | some fields ↦ read_segments (read_fields l fields) segments
    ] in
    if segment == "" then skip else read

-- `row.sort(key=lambda seg: seg[0])`, which is stable.
unfoldable pub insert_segment : Segment → List Segment → List Segment
insert_segment s [] = s ∷ []
insert_segment s (t ∷ row) =
    let after = t ∷ insert_segment s row in if leb_ℤ s.gen_col t.gen_col then s ∷ t ∷ row else after

unfoldable pub sort_row : List Segment → List Segment
unfolding insert_segment
sort_row [] = []
sort_row (s ∷ row) = insert_segment s (sort_row row)

abbrev pub add_row : ℕ → List Segment → List (ℕ × List Segment) → List (ℕ × List Segment)
add_row n [] lines = lines
add_row n (s ∷ row) lines = (n, sort_row (s ∷ row)) ∷ lines

abbrev pub line_start : Cursor → Line
line_start cursor = record { cursor = cursor; gen_col = pos 0; row = [] }

-- The lines of the mappings from line `n` on.
unfoldable pub read_lines : ℕ → Cursor → List String → Option (List (ℕ × List Segment))
read_lines n cursor [] = some []
read_lines n cursor (line ∷ rest) =
    let skip = read_lines (n + 1) cursor rest in
    let read : Option (List (ℕ × List Segment)) =
      elim (read_segments (line_start cursor) (split b',' line)) [
        | none ↦ none
        | some l ↦ Option.map (add_row n l.row) (read_lines (n + 1) l.cursor rest)
      ] in
    if line == "" then skip else read

-- The two kinds of exception of the parser: the caller catches the first alone.
pub data Parse (A : Type 0) : Type 0 where
  parsed : A → Parse A
  value_error : Parse A
  type_error : Parse A

-- `raw.get("version") != 3` is false of the integer and of the float.
abbrev pub is_three : Json → Bool
is_three (int (pos n)) = n == 3
is_three (float nonzero text) = text == "3.0"
is_three _ = false

-- Iteration over a value: a list's items, a dict's keys or a text's characters; none where it
-- raises TypeError. `raw.get(key) or []` puts the empty list for a false value.
abbrev pub characters : String → List Json
characters String.[] = []
characters (String.◌∷◌ c s) = str (String.◌∷◌ c "") ∷ characters s

abbrev pub key_values : Fields → List Json
key_values Fields.end = []
key_values (Fields.field k v rest) = str k ∷ key_values rest

abbrev pub iterate : Json → Option (List Json)
iterate (arr vs) = some (to_list vs)
iterate (obj d) = some (key_values d)
iterate (str s) = some (characters s)
iterate _ = none

abbrev pub items_of : String → Fields → Option (List Json)
items_of key raw = let v = get_or_null key raw in if truthy v then iterate v else some []

abbrev pub text_or : String → Json → String
text_or d (str s) = s
text_or d _ = d

abbrev pub with_lines :
    List Json → List Json → List Json → Option (List (ℕ × List Segment)) → Parse SourceMap
with_lines sources contents names none = value_error
with_lines sources contents names (some lines) = parsed (record {
  sources = map (text_or "") sources;
  sources_content = map as_str contents;
  names = map (text_or "") names;
  lines = lines;
})

abbrev pub parse_mappings : Fields → String → Parse SourceMap
parse_mappings raw mappings = elim (items_of "sources" raw) [
  | none ↦ type_error
  | some sources ↦ elim (items_of "sourcesContent" raw) [
    | none ↦ type_error
    | some contents ↦ elim (items_of "names" raw) [
      | none ↦ type_error
      | some names ↦ with_lines sources contents names (read_lines 0 start (split b';' mappings))
    ]
  ]
]

abbrev pub parse_fields : Fields → Parse SourceMap
parse_fields raw =
    if is_three (get_or_null "version" raw)
    then (elim (get "mappings" raw) [
      | some (str mappings) ↦ parse_mappings raw mappings
      | _ ↦ value_error
    ])
    else value_error

unfoldable pub parse_source_map : Json → Parse SourceMap
unfolding split read_segments read_fields read_lines sort_row decode_vlq
parse_source_map (obj raw) = parse_fields raw
parse_source_map _ = value_error
