-- ===== src/Ingest/Body.antt =====
-- `decompress_gzip` of server/app/ingest.py: gzip bodies under a cap that is checked chunk by chunk.
-- A byte is a number; zlib is a parameter.
pub mod Cap
use crashlens.Base.{
  ℕ, zero, suc, ◌+◌, ◌*◌, ◌≤◌, Option, none, some, List, [], ◌∷◌, ◌++◌, length, ltb, ◌≡◌,
  if◌then◌else◌,
}

abbrev pub max_decompressed_bytes : ℕ
max_decompressed_bytes = 1024 * 1024

abbrev pub decompress_chunk : ℕ
decompress_chunk = 64 * 1024

-- `zlib.decompressobj(47)`: the object's state after each call, with the output. none is a
-- `zlib.error`.
pub record Zlib : Type 1 where
  pub Object : Type 0
  pub fresh : Object
  pub decompress : Object → List ℕ → ℕ → Option (List ℕ × Object)
  pub unconsumed_tail : Object → List ℕ
  pub flush : Object → Option (List ℕ)

-- What the function returns or raises, and a fourth value for a loop cut off by the model.
pub data Unpacked : Type 0 where
  bytes : List ℕ → Unpacked
  payload_too_large malformed_body out_of_fuel : Unpacked

abbrev pub grow : List ℕ → Unpacked
grow out = if ltb max_decompressed_bytes (length out) then payload_too_large else bytes out

-- The part after the loop. A tail that is not empty is added and checked; an empty one changes nothing.
abbrev pub finish : List ℕ → Option (List ℕ) → Unpacked
finish out none = malformed_body
finish out (some []) = bytes out
finish out (some (b ∷ tail)) = grow (out ++ b ∷ tail)

-- The loop: `step` is the last call's chunk with the object after it.
unfoldable pub drain : (z : Zlib) → ℕ → List ℕ → Option (List ℕ × z.Object) → Unpacked
drain z zero out step = out_of_fuel
drain z (suc fuel) out none = malformed_body
drain z (suc fuel) out (some ([], object)) = finish out (z.flush object)
drain z (suc fuel) out (some (b ∷ chunk, object)) =
    let out' = out ++ b ∷ chunk in
    let rest =
      drain z fuel out' (z.decompress object (z.unconsumed_tail object) decompress_chunk) in
    if ltb max_decompressed_bytes (length out') then payload_too_large else rest

unfoldable pub decompress_gzip : Zlib → List ℕ → Unpacked
decompress_gzip z wire =
    drain z (max_decompressed_bytes + 2) [] (z.decompress z.fresh wire decompress_chunk)
