-- ===== src/SourceMap/Mapping/Tests.antt =====
-- Witnesses and runs of the parser and of a lookup.
use crashlens.Base.{ℕ, ◌≡◌, refl, none, [], ◌∷◌}
use crashlens.Json.{Json, str, int, arr, obj, field, end, Items, get, truthy}
use crashlens.Json.Numbers.{pos, ◌+ℤ◌}
use crashlens.SourceMap.Mapping.{Segment, SourceMap, parse_source_map, parsed, lookup, row_at}
use crashlens.SourceMap.Mapping.Sorted.{RowsSorted, parse_source_map-RowsSorted}
use crashlens.SourceMap.Mapping.Lookup.{Finds, lookup-Finds}

-- One line with two segments, at columns 0 and 4.
abbrev small : Json
small = obj (
    field "version" (int (pos 3)) (
      field "mappings" (str "AAAA,IAAI")
        (field "sources" (arr (Items.cons (str "a.ts") Items.nil)) end)))

abbrev origin : ℕ → ℕ → Segment
origin gen col = record {
  gen_col = pos gen;
  src_index = pos 0;
  orig_line = pos 0;
  orig_col = pos col;
  name_index = none;
}

abbrev small_map : SourceMap
small_map = record {
  sources = "a.ts" ∷ [];
  sources_content = [];
  names = [];
  lines = (0, origin 0 0 ∷ origin 4 4 ∷ []) ∷ [];
}

small_parsed : parse_source_map small ≡ parsed small_map
unfolding parse_source_map get truthy ◌+ℤ◌
small_parsed = refl

lookup-Finds_example : Finds (pos 5) (row_at 0 small_map.lines) (lookup small_map (pos 0) (pos 5))
lookup-Finds_example = lookup-Finds small small_map 0 (pos 5) small_parsed

parse_source_map-RowsSorted_example : RowsSorted small_map.lines
parse_source_map-RowsSorted_example = parse_source_map-RowsSorted small small_map small_parsed
