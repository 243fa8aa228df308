-- ===== src/RateLimit/Bound.antt =====
-- How much one key is let through in a run of requests of many keys.
use Prim.Native.String.{◌++◌}
use text.Mathlib.TextLemmas.{append_cancel_left}
use crashlens.Base.{
  ℕ, ◌+◌, ◌-◌, ◌*◌, ◌/◌, ◌≤◌, ◌<◌, ◌≡◌, String, Option, none, some, List, [], ◌∷◌, arith, ◌==◌,
  string_eq, if◌then◌else◌, eq_iff, refl, false, Bool-cases, inl, inr,
}
use crashlens.RateLimit.{
  Bucket, Lua, Prints, Redis, visible, refilled, check_rate_limit, key_prefix, no_buckets,
}

-- The requests that a run lets through for one key.
pub admitted : Lua → ℕ → String → Redis → List (String × ℕ) → ℕ
admitted lua hz key redis [] = 0
admitted lua hz key redis ((k, now) ∷ requests) =
    let (decision, redis') = check_rate_limit lua hz redis k now in
    (if k == key then (if decision.allowed then 1 else 0) else 0)
    + admitted lua hz key redis' requests

-- The requests come in the order of their times, none before `start` or after `stop`.
abbrev pub Within : ℕ → ℕ → List (String × ℕ) → Type 0
Within start stop [] = start ≤ stop
Within start stop ((k, now) ∷ requests) = (start ≤ now) × Within now stop requests

-- How many of the requests are the key's.
pub requests_of : String → List (String × ℕ) → ℕ
requests_of key [] = 0
requests_of key ((k, now) ∷ requests) = (if k == key then 1 else 0) + requests_of key requests

-- What one request gains by the rounding of the texts.
abbrev pub rounding : ℕ → ℕ
rounding hz = hz / 10_000 + hz / 100_000_000_000

-- A stored bucket is of no time to come, but for the rounding, and outlives its refill.
abbrev pub IsSound : ℕ → ℕ → Option Bucket → Type 0
IsSound hz now none = Unit {0}
IsSound hz now (some b) = (b.ts ≤ now + hz / 10_000) × (b.ts + 120 * hz ≤ b.expires)

level : ℕ → ℕ → Option Bucket → ℕ
unfolding visible refilled
level hz now state = refilled (120 * hz) 1 now (visible now state)

level-later :
    (hz t now : ℕ) (state : Option Bucket)
    → t ≤ now
    → IsSound hz t state
    → level hz now state ≤ level hz t state + (now - t)
unfolding level
level-later hz t now none h s = ground arith
level-later hz t now (some b) h s = ground arith

refilled-le : (hz now : ℕ) (o : Option Bucket) → refilled (120 * hz) 1 now o ≤ 120 * hz
unfolding refilled
refilled-le hz now none = ground arith
refilled-le hz now (some b) = ground arith

request_lem :
    (lua : Lua) (hz now : ℕ) (redis : Redis) (key : String)
    → 0 < hz
    → lua.time now ≤ now + hz / 10_000
    → now ≤ lua.time now + hz / 10_000
    → let tokens = refilled (120 * hz) 1 now (visible now (redis (key_prefix ++ key))) in
      lua.tokens tokens ≤ tokens + hz / 100_000_000_000
      → lua.tokens (tokens - hz) ≤ tokens - hz + hz / 100_000_000_000
      → let (decision, redis') = check_rate_limit lua hz redis key now in
        ((if decision.allowed then 1 else 0) * hz + level hz now (redis' (key_prefix ++ key))
          ≤ level hz now (redis (key_prefix ++ key)) + rounding hz)
        × IsSound hz now (redis' (key_prefix ++ key))
unfolding check_rate_limit level
request_lem lua hz now redis key h late early kept spent =
    ground (arith, (eq_iff (key_prefix ++ key) (key_prefix ++ key)).1 refl)

-- One request, as the bucket of its own key sees it, and as that of any key does.
own_lem :
    (lua : Lua) (hz now : ℕ) (redis : Redis) (key : String)
    → 0 < hz
    → Prints hz lua
    → now < 10_000_000_000 * hz
    → let (decision, redis') = check_rate_limit lua hz redis key now in
      ((if decision.allowed then 1 else 0) * hz + level hz now (redis' (key_prefix ++ key))
        ≤ level hz now (redis (key_prefix ++ key)) + rounding hz)
      × IsSound hz now (redis' (key_prefix ++ key))
own_lem lua hz now redis key h prints soon =
    let bucket = visible now (redis (key_prefix ++ key)) in
    let full = refilled-le hz now bucket in
    request_lem lua hz now redis key h (prints.not_late now soon) (prints.not_early now soon)
      (prints.not_more (refilled (120 * hz) 1 now bucket) full)
      (prints.not_more (refilled (120 * hz) 1 now bucket - hz) (omega (arith, full)))

untouched :
    (lua : Lua) (hz now : ℕ) (redis : Redis) (k key : String)
    → (k == key) ≡ false
    → (check_rate_limit lua hz redis k now).1 (key_prefix ++ key) ≡ redis (key_prefix ++ key)
unfolding check_rate_limit
untouched lua hz now redis k key other = ground (
  arith,
  eq_iff (key_prefix ++ k) (key_prefix ++ key),
  append_cancel_left key_prefix k key,
  eq_iff k key,
)

step_lem :
    (lua : Lua) (hz now : ℕ) (redis : Redis) (k key : String)
    → 0 < hz
    → Prints hz lua
    → now < 10_000_000_000 * hz
    → IsSound hz now (redis (key_prefix ++ key))
    → let (decision, redis') = check_rate_limit lua hz redis k now in
      ((if k == key then (if decision.allowed then 1 else 0) else 0) * hz
          + level hz now (redis' (key_prefix ++ key))
        ≤ level hz now (redis (key_prefix ++ key)) + (if k == key then 1 else 0) * rounding hz)
      × IsSound hz now (redis' (key_prefix ++ key))
step_lem lua hz now redis k key h prints soon s = elim (Bool-cases (k == key)) [
  | inl same ↦
      rw ((eq_iff k key).0 same, (eq_iff key key).1 refl)
        (let (one, sound) = own_lem lua hz now redis key h prints soon in
          (omega (arith, one), sound))
  | inr other ↦ rw (other, untouched lua hz now redis k key other) (omega arith, s)
]

IsSound-later :
    (hz t now : ℕ) (state : Option Bucket) → t ≤ now → IsSound hz t state → IsSound hz now state
IsSound-later hz t now none h s = tt
IsSound-later hz t now (some b) h s = omega arith

Within-le :
    (start stop : ℕ) (requests : List (String × ℕ)) → Within start stop requests → start ≤ stop
Within-le start stop [] w = w
Within-le start stop ((k, now) ∷ requests) w = omega (arith, Within-le now stop requests w.1)

full : (hz now : ℕ) → level hz now none ≡ 120 * hz
unfolding level
full hz now = omega arith

sum_lem :
    (a b r n first last hz off start now stop : ℕ) (l : ℕ)
    → a * hz + last ≤ l + b * off
    → r * hz ≤ last + (stop - now) + n * off
    → l ≤ first + (now - start)
    → now ≤ stop
    → start ≤ now
    → (a + r) * hz ≤ first + (stop - start) + (b + n) * off
sum_lem a b r n first last hz off start now stop l one rest later ends starts = grind arith

admitted_level :
    (lua : Lua) (hz : ℕ) (key : String) (redis : Redis) (start stop : ℕ)
    (requests : List (String × ℕ))
    → 0 < hz
    → Prints hz lua
    → stop < 10_000_000_000 * hz
    → IsSound hz start (redis (key_prefix ++ key))
    → Within start stop requests
    → admitted lua hz key redis requests * hz
      ≤ level hz start (redis (key_prefix ++ key))
        + (stop - start)
        + requests_of key requests * rounding hz
unfolding admitted requests_of
admitted_level lua hz key redis start stop [] h prints soon s w = omega arith
admitted_level lua hz key redis start stop ((k, now) ∷ requests) h prints soon s w =
    let bucket = redis (key_prefix ++ key) in
    let ends = Within-le now stop requests w.1 in
    let (one, sound) =
      step_lem lua hz now redis k key h prints (omega (arith, ends))
        (IsSound-later hz start now bucket w.0 s) in
    let rest =
      admitted_level lua hz key (check_rate_limit lua hz redis k now).1 now stop requests h prints
        soon sound w.1 in
    let later = level-later hz start now bucket w.0 s in
    sum_lem _ _ _ _ _ _ hz (rounding hz) start now stop _ one rest later ends w.0

-- One DSN key is let through at most its burst of 120 and then one request a second, but for the
-- rounding of what the script stores: whatever the other keys do and whenever its bucket expires, the
-- number of its admitted requests between two times is at most 120 plus the seconds between them, plus
-- for each request of the key, refused ones too, 0.0001 and 10 ^ -11. The clock has `hz` > 0 ticks a
-- second and its times have ten digits, Lua prints 14 digits, the limiter starts with no bucket, and
-- the requests come in the order of their times.
pub admitted-le :
    (lua : Lua) (hz : ℕ) (key : String) (start stop : ℕ) (requests : List (String × ℕ))
    → 0 < hz
    → Prints hz lua
    → stop < 10_000_000_000 * hz
    → Within start stop requests
    → admitted lua hz key no_buckets requests * hz
      ≤ 120 * hz + (stop - start) + requests_of key requests * (hz / 10_000 + hz / 100_000_000_000)
admitted-le lua hz key start stop requests h prints soon w = omega (
  arith,
  admitted_level lua hz key no_buckets start stop requests h prints soon tt w,
  full hz start,
)
