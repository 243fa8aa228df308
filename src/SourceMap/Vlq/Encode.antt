-- ===== src/SourceMap/Vlq/Encode.antt =====
-- The encoder that the Source Map format describes, and that the decoder inverts it.
use native.Mathlib.Numerals.{towards_suc}
use crashlens.Base.{
  ℕ, zero, suc, ◌+◌, ◌-◌, ◌*◌, ◌/◌, ◌%◌, ◌^◌, ◌≤◌, ◌<◌, ◌≡◌, refl, ap, Bool, true, false, some,
  List, [], ◌∷◌, ◌++◌, append_assoc, append-nil, arith, ltb→lt, ltb, ◌==◌, nat_eq, if◌then◌else◌,
  Bool-cases, inl, inr,
}
use crashlens.Json.Numbers.{ℤ, pos, negsuc}
use crashlens.SourceMap.Vlq.{b64_index, signed, is_continued, vlq_loop, decode_vlq}

-- The character of a base64 digit.
b64_char : ℕ → ℕ
b64_char d =
    if ltb d 26
    then d + b'A'
    else if ltb d 52
    then d - 26 + b'a'
    else if ltb d 62
    then d - 52 + b'0'
    else if d == 62
    then b'+'
    else b'/'

-- Five bits a digit, the lowest first, with a bit set on all but the last. A number needs no more
-- digits than itself and one.
encode_bits : ℕ → ℕ → List ℕ
encode_bits zero n = b64_char (n % 32) ∷ []
encode_bits (suc fuel) n =
    let rest = encode_bits fuel (n / 32) in
    if ltb n 32 then b64_char n ∷ [] else b64_char (32 + n % 32) ∷ rest

-- The sign goes to the lowest bit.
zigzag : ℤ → ℕ
zigzag (pos n) = 2 * n
zigzag (negsuc n) = 2 * (n + 1) + 1

encode_value : ℤ → List ℕ
encode_value v = encode_bits (zigzag v) (zigzag v)

pub encode_vlq : List ℤ → List ℕ
encode_vlq [] = []
encode_vlq (v ∷ vs) = encode_value v ++ encode_vlq vs

b64_index-b64_char : (d : ℕ) → d < 64 → b64_index (b64_char d) ≡ some d
unfolding b64_index b64_char
b64_index-b64_char d h = ground arith

signed-zigzag : (v : ℤ) → signed (zigzag v) ≡ v
unfolding zigzag
signed-zigzag (pos n) = ground arith
signed-zigzag (negsuc n) = ground arith

pow-add-five : (s : ℕ) → 2 ^ (s + 5) ≡ 32 * 2 ^ s
pow-add-five s = simp towards_suc (omega arith)

is_continued-low : (d : ℕ) → d < 32 → is_continued d ≡ false
is_continued-low d h = ground arith

is_continued-high : (d : ℕ) → d < 32 → is_continued (32 + d) ≡ true
is_continued-high d h = ground arith

-- One digit read in the middle of the loop, a last one and one that is continued.
loop_last :
    (d shift acc : ℕ) (have : Bool) (values : List ℤ) (rest : List ℕ)
    → d < 32
    → vlq_loop shift acc have values (b64_char d ∷ rest)
      ≡ vlq_loop 0 0 false (values ++ signed (acc + d * 2 ^ shift) ∷ []) rest
unfolding vlq_loop
loop_last d shift acc have values rest h =
    let low : d % 32 ≡ d = omega arith in
    rw (b64_index-b64_char d (omega arith), vlq_loop, is_continued-low d h, low)

loop_more :
    (d shift acc : ℕ) (have : Bool) (values : List ℤ) (rest : List ℕ)
    → d < 32
    → vlq_loop shift acc have values (b64_char (32 + d) ∷ rest)
      ≡ vlq_loop (shift + 5) (acc + d * 2 ^ shift) true values rest
unfolding vlq_loop
loop_more d shift acc have values rest h =
    let low : (32 + d) % 32 ≡ d = omega arith in
    rw (b64_index-b64_char (32 + d) (omega arith), vlq_loop, is_continued-high d h, low)

-- The value of a number is that of its low digit and 32 times that of the rest.
digits_sum :
    (n shift acc : ℕ) → acc + n % 32 * 2 ^ shift + n / 32 * 2 ^ (shift + 5) ≡ acc + n * 2 ^ shift
digits_sum n shift acc = omega (
  arith,
  ap (λ (p : ℕ). n / 32 * p) (pow-add-five shift),
  ap (λ (m : ℕ). m * 2 ^ shift) (split n),
)
  where
    split : (m : ℕ) → m % 32 + 32 * (m / 32) ≡ m
    split m = omega arith

-- One encoded number read from the middle of the loop.
loop-encode_bits :
    (fuel n shift acc : ℕ) (have : Bool) (values : List ℤ) (rest : List ℕ)
    → n ≤ fuel
    → vlq_loop shift acc have values (encode_bits fuel n ++ rest)
      ≡ vlq_loop 0 0 false (values ++ signed (acc + n * 2 ^ shift) ∷ []) rest
unfolding encode_bits
loop-encode_bits zero n shift acc have values rest h =
    let low : n % 32 ≡ n = omega arith in
    rw low (loop_last n shift acc have values rest (omega arith))
loop-encode_bits (suc fuel) n shift acc have values rest h = elim (Bool-cases (ltb n 32)) [
  | inl short ↦ rw short (loop_last n shift acc have values rest (ltb→lt n 32 short))
  | inr long ↦ rw (
    long,
    loop_more (n % 32) shift acc have values (encode_bits fuel (n / 32) ++ rest) (omega arith),
    loop-encode_bits fuel (n / 32) (shift + 5) (acc + n % 32 * 2 ^ shift) true values rest
        (ground arith),
    digits_sum n shift acc,
  )
]

loop_end : (values : List ℤ) → vlq_loop 0 0 false values [] ≡ some values
unfolding vlq_loop
loop_end values = refl

loop-encode_vlq :
    (vs values : List ℤ) → vlq_loop 0 0 false values (encode_vlq vs) ≡ some (values ++ vs)
unfolding encode_vlq encode_value
loop-encode_vlq [] values = rw (loop_end, append-nil)
loop-encode_vlq (v ∷ vs) values =
    let whole : 0 + zigzag v * 2 ^ 0 ≡ zigzag v = omega arith in
    rw (
      loop-encode_bits (zigzag v) (zigzag v) 0 0 false values (encode_vlq vs) (omega arith),
      whole,
      signed-zigzag v,
      loop-encode_vlq vs (values ++ v ∷ []),
      append_assoc,
    )

-- The decoder inverts the encoder of the format: every list of integers comes back whole.
pub decode_vlq-encode_vlq : (vs : List ℤ) → decode_vlq (encode_vlq vs) ≡ some vs
unfolding decode_vlq
decode_vlq-encode_vlq vs = loop-encode_vlq vs []
