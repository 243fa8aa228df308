-- ===== src/SourceMap/Mapping/Lookup.antt =====
-- What a lookup in a parsed map finds.
use crashlens.Base.{
  ℕ, suc, ◌≡◌, refl, Option, none, some, List, [], ◌∷◌, All, arith, get_elem?, ◌⊎◌, inl, inr,
  Bool-cases,
}
use crashlens.Json.{Json}
use crashlens.Json.Numbers.{ℤ, ◌≤ℤ◌, ◌<ℤ◌, leb_ℤ, pos}
use crashlens.SourceMap.Mapping.{Segment, SourceMap, scan, lookup, row_at, parse_source_map, parsed}
use crashlens.SourceMap.Mapping.Sorted.{IsSorted, parse_source_map-RowsSorted, row_at-IsSorted}

-- No segment of the row lies between the chosen one and the column.
abbrev pub IsBest : ℤ → Segment → List Segment → Type 0
IsBest q s = All (λ t. (q <ℤ t.gen_col) ⊎ (t.gen_col ≤ℤ s.gen_col))

-- What a lookup of column `q` should find in a row: nothing where all segments start after it,
-- else a segment of the row that starts at or before it, and no other later.
abbrev pub Finds : ℤ → List Segment → Option Segment → Type 0
Finds q row none = All (λ t. q <ℤ t.gen_col) row
Finds q row (some s) = ((i : ℕ) × (get_elem? row i ≡ some s)) × (s.gen_col ≤ℤ q) × IsBest q s row

after-All :
    (q b : ℤ) (row : List Segment)
    → q <ℤ b
    → All (λ t. b ≤ℤ t.gen_col) row
    → All (λ t. q <ℤ t.gen_col) row
after-All q b [] h all = tt
after-All q b (t ∷ row) h all = (omega (arith, all.0), after-All q b row h all.1)

later-IsBest :
    (q : ℤ) (s : Segment) (row : List Segment) → All (λ t. q <ℤ t.gen_col) row → IsBest q s row
later-IsBest q s [] all = tt
later-IsBest q s (t ∷ row) all = (inl all.0, later-IsBest q s row all.1)

-- Once a segment is chosen, the loop ends with one.
abbrev From : ℤ → Segment → List Segment → Option Segment → Type 0
From q c row none = ⊥
From q c row (some s) =
    ((i : ℕ) × (get_elem? (c ∷ row) i ≡ some s))
    × (s.gen_col ≤ℤ q)
    × (c.gen_col ≤ℤ s.gen_col)
    × IsBest q s row

From-cons :
    (q : ℤ) (c t : Segment) (row : List Segment) (r : Option Segment)
    → c.gen_col ≤ℤ t.gen_col
    → From q t row r
    → From q c (t ∷ row) r
From-cons q c t row none h f = elim f [ ]
From-cons q c t row (some s) h f = ((suc f.0.0, f.0.1), f.1, omega (arith, f.2), (inr f.2, f.3))

scan-From :
    (q : ℤ) (c : Segment) (row : List Segment)
    → c.gen_col ≤ℤ q
    → IsSorted (c ∷ row)
    → From q c row (scan q (some c) row)
unfolding scan
scan-From q c [] h sorted = ((0, refl), h, omega arith, tt)
scan-From q c (t ∷ row) h sorted = elim (Bool-cases (leb_ℤ t.gen_col q)) [
  | inl before ↦ rw before (
      From-cons q c t row (scan q (some t) row) sorted.0.0
        (scan-From q t row (ground arith) sorted.1))
  | inr after ↦ rw after (
    (0, refl),
    h,
    omega arith,
    (
      inl (ground arith),
      later-IsBest q c row (after-All q t.gen_col row (ground arith) sorted.1.0),
    ),
  )
]

From-Finds :
    (q : ℤ) (t : Segment) (row : List Segment) (r : Option Segment)
    → From q t row r
    → Finds q (t ∷ row) r
From-Finds q t row none f = elim f [ ]
From-Finds q t row (some s) f = (f.0, f.1, (inr f.2, f.3))

scan-Finds : (q : ℤ) (row : List Segment) → IsSorted row → Finds q row (scan q none row)
unfolding scan
scan-Finds q [] sorted = tt
scan-Finds q (t ∷ row) sorted = elim (Bool-cases (leb_ℤ t.gen_col q)) [
  | inl before ↦
      rw before (From-Finds q t row (scan q (some t) row) (scan-From q t row (ground arith) sorted))
  | inr after ↦ rw after (ground arith, after-All q t.gen_col row (ground arith) sorted.0)
]

-- In a map that parsed, a lookup on a line finds the mapping in force at the column: the segment
-- of the line's row with the greatest generated column at or before it, and nothing exactly when
-- every segment of the row starts after it.
pub lookup-Finds :
    (raw : Json) (m : SourceMap) (line : ℕ) (column : ℤ)
    → parse_source_map raw ≡ parsed m
    → Finds column (row_at line m.lines) (lookup m (pos line) column)
unfolding lookup
lookup-Finds raw m line column h =
    scan-Finds column (row_at line m.lines)
      (row_at-IsSorted line m.lines (parse_source_map-RowsSorted raw m h))
