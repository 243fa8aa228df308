-- ===== src/Ingest/Body/Cap.antt =====
-- The cap on decompressed bodies.
use crashlens.Base.{
  ℕ, zero, suc, ◌+◌, ◌≤◌, Option, none, some, List, [], ◌∷◌, ◌++◌, length, length-append, ltb,
  arith, Bool-cases, inl, inr,
}
use crashlens.Ingest.Body.{
  Zlib, Unpacked, bytes, out_of_fuel, grow, finish, drain, decompress_gzip, max_decompressed_bytes,
  decompress_chunk,
}

-- A result of the function itself, and within the cap if there are bytes.
abbrev pub Capped : Unpacked → Type 0
Capped (bytes out) = length out ≤ max_decompressed_bytes
Capped out_of_fuel = ⊥
Capped _ = Unit

grow-Capped : (out : List ℕ) → Capped (grow out)
grow-Capped out = elim (Bool-cases (ltb max_decompressed_bytes (length out))) [
  | inl over ↦ rw over tt
  | inr under ↦ rw under (ground arith)
]

finish-Capped :
    (out : List ℕ) (tail : Option (List ℕ))
    → length out ≤ max_decompressed_bytes
    → Capped (finish out tail)
finish-Capped out none h = tt
finish-Capped out (some []) h = h
finish-Capped out (some (b ∷ tail)) h = grow-Capped (out ++ b ∷ tail)

drain-Capped :
    (z : Zlib) (fuel : ℕ) (out : List ℕ) (step : Option (List ℕ × z.Object))
    → length out ≤ max_decompressed_bytes
    → max_decompressed_bytes + 2 ≤ fuel + length out
    → Capped (drain z fuel out step)
unfolding drain
drain-Capped z zero out step h f = absurd (omega arith)
drain-Capped z (suc fuel) out none h f = tt
drain-Capped z (suc fuel) out (some ([], object)) h f = finish-Capped out (z.flush object) h
drain-Capped z (suc fuel) out (some (b ∷ chunk, object)) h f =
    let out' = out ++ b ∷ chunk in
    elim (Bool-cases (ltb max_decompressed_bytes (length out'))) [
      | inl over ↦ rw over tt
      | inr under ↦ rw under (
          drain-Capped z fuel out' (z.decompress object (z.unconsumed_tail object) decompress_chunk)
            (ground arith) (omega (arith, length-append out (b ∷ chunk))))
    ]

-- Whatever zlib does, the loop of `decompress_gzip` ends within the rounds that the model grants, and
-- the bytes that it returns are at most `max_decompressed_bytes`.
pub decompress_gzip-Capped : (z : Zlib) (wire : List ℕ) → Capped (decompress_gzip z wire)
unfolding decompress_gzip
decompress_gzip-Capped z wire =
    drain-Capped z (max_decompressed_bytes + 2) [] (z.decompress z.fresh wire decompress_chunk)
      (omega arith) (omega arith)
