-- ===== src/SourceMap/Vlq.antt =====
-- `decode_vlq` of server/app/sourcemaps.py, over the code points of a segment.
pub mod Encode
mod Tests
use crashlens.Base.{
  ℕ, ◌+◌, ◌-◌, ◌*◌, ◌/◌, ◌%◌, ◌^◌, Bool, true, false, ◌&&◌, Option, none, some, List, [], ◌∷◌, ◌++◌,
  leb, ◌==◌, nat_eq, if◌then◌else◌,
}
use crashlens.Json.Numbers.{ℤ, pos, sub_ℕ}

-- `_B64_INDEX.get(ch)`.
unfoldable pub b64_index : ℕ → Option ℕ
b64_index ch =
    if leb b'A' ch && leb ch b'Z'
    then some (ch - b'A')
    else if leb b'a' ch && leb ch b'z'
    then some (ch - b'a' + 26)
    else if leb b'0' ch && leb ch b'9'
    then some (ch - b'0' + 52)
    else if ch == b'+'
    then some 62
    else if ch == b'/'
    then some 63
    else none

-- `-magnitude if acc & 1 else magnitude`, the magnitude being `acc >> 1`.
abbrev pub signed : ℕ → ℤ
signed acc = if acc % 2 == 1 then sub_ℕ 0 (acc / 2) else pos (acc / 2)

-- `digit & 0x20`
abbrev pub is_continued : ℕ → Bool
is_continued digit = digit / 32 % 2 == 1

-- none: the ValueError of a character outside the alphabet, or of a value that is cut off.
unfoldable pub vlq_loop : ℕ → ℕ → Bool → List ℤ → List ℕ → Option (List ℤ)
vlq_loop shift acc have_bits values [] = if have_bits then none else some values
vlq_loop shift acc have_bits values (ch ∷ rest) = elim (b64_index ch) [
  | none ↦ none
  | some digit ↦
      let acc' = acc + digit % 32 * 2 ^ shift in
      let more = vlq_loop (shift + 5) acc' true values rest in
      let next = vlq_loop 0 0 false (values ++ signed acc' ∷ []) rest in
      if is_continued digit then more else next
]

unfoldable pub decode_vlq : List ℕ → Option (List ℤ)
unfolding vlq_loop b64_index
decode_vlq segment = vlq_loop 0 0 false [] segment
