-- ===== src/SourceMap/Mapping/Sorted.antt =====
-- The rows of a parsed map are in the order of their columns.
use crashlens.Base.{
  ℕ, ◌+◌, ◌≡◌, refl, true, Option, none, some, String, List, [], ◌∷◌, All, arith, ◌==◌, string_eq,
  nat_eq, Bool-cases, subst, Option-cases, inl, inr,
}
use mathlib.Core.Option
use crashlens.Json.{Json, str, obj, Fields, get, get_or_null}
use crashlens.Json.Numbers.{ℤ, ◌≤ℤ◌, leb_ℤ}
use crashlens.SourceMap.Mapping.{
  Segment, SourceMap, Cursor, Line, insert_segment, sort_row, add_row, read_segments, read_lines,
  line_start, split, row_at, Parse, parsed, parse_source_map, with_lines, items_of, start,
  parse_mappings, parse_fields, is_three,
}

abbrev pub IsSorted : List Segment → Type 0
IsSorted [] = Unit {0}
IsSorted (s ∷ row) = All (λ t. s.gen_col ≤ℤ t.gen_col) row × IsSorted row

All-le_trans :
    (a b : ℤ) (row : List Segment)
    → a ≤ℤ b
    → All (λ t. b ≤ℤ t.gen_col) row
    → All (λ t. a ≤ℤ t.gen_col) row
All-le_trans a b [] h all = tt
All-le_trans a b (t ∷ row) h all = (omega (arith, all.0), All-le_trans a b row h all.1)

All-insert_segment :
    (a : ℤ) (s : Segment) (row : List Segment)
    → a ≤ℤ s.gen_col
    → All (λ t. a ≤ℤ t.gen_col) row
    → All (λ t. a ≤ℤ t.gen_col) (insert_segment s row)
unfolding insert_segment
All-insert_segment a s [] h all = (h, tt)
All-insert_segment a s (t ∷ row) h all = elim (Bool-cases (leb_ℤ s.gen_col t.gen_col)) [
  | inl first ↦ rw first (h, all)
  | inr later ↦ rw later (all.0, All-insert_segment a s row h all.1)
]

insert_segment-IsSorted :
    (s : Segment) (row : List Segment) → IsSorted row → IsSorted (insert_segment s row)
unfolding insert_segment
insert_segment-IsSorted s [] sorted = (tt, tt)
insert_segment-IsSorted s (t ∷ row) sorted = elim (Bool-cases (leb_ℤ s.gen_col t.gen_col)) [
  | inl first ↦
      let le : s.gen_col ≤ℤ t.gen_col = ground arith in
      rw first ((le, All-le_trans s.gen_col t.gen_col row le sorted.0), sorted)
  | inr later ↦ rw later (
    All-insert_segment t.gen_col s row (ground arith) sorted.0,
    insert_segment-IsSorted s row sorted.1,
  )
]

sort_row-IsSorted : (row : List Segment) → IsSorted (sort_row row)
unfolding sort_row
sort_row-IsSorted [] = tt
sort_row-IsSorted (s ∷ row) = insert_segment-IsSorted s (sort_row row) (sort_row-IsSorted row)

abbrev pub RowsSorted : List (ℕ × List Segment) → Type 0
RowsSorted [] = Unit {0}
RowsSorted ((n, row) ∷ lines) = IsSorted row × RowsSorted lines

add_row-RowsSorted :
    (n : ℕ) (row : List Segment) (lines : List (ℕ × List Segment))
    → RowsSorted lines
    → RowsSorted (add_row n row lines)
add_row-RowsSorted n [] lines h = h
add_row-RowsSorted n (s ∷ row) lines h = (sort_row-IsSorted (s ∷ row), h)

abbrev Every : Option (List (ℕ × List Segment)) → Type 0
Every none = Unit {0}
Every (some lines) = RowsSorted lines

map-Every :
    (n : ℕ) (row : List Segment) (o : Option (List (ℕ × List Segment)))
    → Every o
    → Every (Option.map (add_row n row) o)
map-Every n row none h = tt
map-Every n row (some lines) h = add_row-RowsSorted n row lines h

abbrev after_line :
    ℕ → (Cursor → Option (List (ℕ × List Segment))) → Option Line → Option (List (ℕ × List Segment))
after_line n rest none = none
after_line n rest (some l) = Option.map (add_row n l.row) (rest l.cursor)

read_lines-Every : (n : ℕ) (cursor : Cursor) (ls : List String) → Every (read_lines n cursor ls)
unfolding read_lines
read_lines-Every n cursor [] = tt
read_lines-Every n cursor (line ∷ rest) = elim (Bool-cases (line == "")) [
  | inl blank ↦ rw blank (read_lines-Every (n + 1) cursor rest)
  | inr full ↦ elim (Option-cases (read_segments (line_start cursor) (split b',' line))) [
    | inl bad ↦ rw (full, bad, read_lines) tt
    | inr (l, good) ↦
        rw (full, good, read_lines)
          (map-Every n l.row (read_lines (n + 1) l.cursor rest)
            (read_lines-Every (n + 1) l.cursor rest))
  ]
]

abbrev pub MapSorted : Parse SourceMap → Type 0
MapSorted (parsed m) = RowsSorted m.lines
MapSorted _ = Unit {0}

with_lines-MapSorted :
    (sources contents names : List Json) (o : Option (List (ℕ × List Segment)))
    → Every o
    → MapSorted (with_lines sources contents names o)
with_lines-MapSorted sources contents names none h = tt
with_lines-MapSorted sources contents names (some lines) h = h

parse_mappings-MapSorted :
    (raw : Fields) (mappings : String) (sources contents names : Option (List Json))
    → items_of "sources" raw ≡ sources
    → items_of "sourcesContent" raw ≡ contents
    → items_of "names" raw ≡ names
    → MapSorted (parse_mappings raw mappings)
parse_mappings-MapSorted raw mappings none contents names a b c = rw (a, parse_mappings) tt
parse_mappings-MapSorted raw mappings (some x) none names a b c = rw (a, b, parse_mappings) tt
parse_mappings-MapSorted raw mappings (some x) (some y) none a b c = rw (a, b, c, parse_mappings) tt
parse_mappings-MapSorted raw mappings (some x) (some y) (some z) a b c =
    rw (a, b, c, parse_mappings)
      (with_lines-MapSorted x y z (read_lines 0 start (split b';' mappings))
        (read_lines-Every 0 start (split b';' mappings)))

parse_fields-MapSorted :
    (raw : Fields) (o : Option Json)
    → is_three (get_or_null "version" raw) ≡ true
    → get "mappings" raw ≡ o
    → MapSorted (parse_fields raw)
parse_fields-MapSorted raw (some (str mappings)) v e =
    rw (v, e, parse_fields) (parse_mappings-MapSorted raw mappings _ _ _ refl refl refl)
parse_fields-MapSorted raw (some _) v e = rw (v, e, parse_fields) tt
parse_fields-MapSorted raw none v e = rw (v, e, parse_fields) tt

parse_source_map-MapSorted : (raw : Json) → MapSorted (parse_source_map raw)
unfolding parse_source_map
parse_source_map-MapSorted (obj raw) = elim (Bool-cases (is_three (get_or_null "version" raw))) [
  | inl three ↦ parse_fields-MapSorted raw (get "mappings" raw) three refl
  | inr other ↦ rw (other, parse_fields) tt
]
parse_source_map-MapSorted _ = tt

-- Every row of a parsed source map is sorted by its generated columns.
pub parse_source_map-RowsSorted :
    (raw : Json) (m : SourceMap) → parse_source_map raw ≡ parsed m → RowsSorted m.lines
parse_source_map-RowsSorted raw m h = subst MapSorted h (parse_source_map-MapSorted raw)

pub row_at-IsSorted :
    (n : ℕ) (lines : List (ℕ × List Segment)) → RowsSorted lines → IsSorted (row_at n lines)
unfolding row_at
row_at-IsSorted n [] h = tt
row_at-IsSorted n ((m, row) ∷ lines) h = ground (arith, row_at-IsSorted n lines h.1)
