-- ===== src/RateLimit.antt =====
-- server/app/ratelimit.py: the token bucket of the ingest path. A second has `hz` clock ticks and a
-- token is counted in `hz` parts, so that at one token a second a tick earns one part. The doubles
-- are modelled without their rounding, but for the numbers that the script stores and returns as
-- texts, which are read back with the rounding of a parameter. Redis and the callers read one clock.
pub mod Bound
pub mod Retry
mod Tests
use Prim.Native.String.{◌++◌}
use crashlens.Base.{
  ℕ, ◌+◌, ◌-◌, ◌*◌, ◌/◌, ◌≤◌, ◌<◌, max, min, String, Bool, true, false, Option, none, some, leb,
  ltb, ◌==◌, string_eq, if◌then◌else◌,
}

abbrev pub bucket_capacity : ℕ
bucket_capacity = 120

abbrev pub refill_per_minute : ℕ
refill_per_minute = 60

abbrev pub refill_per_second : ℕ
refill_per_second = refill_per_minute / 60

abbrev pub key_prefix : String
key_prefix = "ingest:ratelimit:"

abbrev pub ttl_seconds : ℕ
ttl_seconds = bucket_capacity / refill_per_second + 60

-- The hash in Redis, with the time at which its key expires.
pub record Bucket : Type 0 where
  pub tokens : ℕ
  pub ts : ℕ
  pub expires : ℕ

abbrev pub Redis : Type 0
Redis = String → Option Bucket

abbrev pub put : Redis → String → Bucket → Redis
put redis key bucket j = if key == j then some bucket else redis j

-- What HMGET sees: nothing once the key has expired.
unfoldable pub visible : ℕ → Option Bucket → Option Bucket
visible now none = none
visible now (some b) = if leb b.expires now then none else some b

-- The tokens after the refill: a missing bucket counts as full, and a clock that went back earns
-- nothing.
unfoldable pub refilled : ℕ → ℕ → ℕ → Option Bucket → ℕ
refilled capacity refill now none = min capacity (capacity + (now - now) * refill)
refilled capacity refill now (some b) =
    let elapsed = if ltb now b.ts then 0 else now - b.ts in
    min capacity (b.tokens + elapsed * refill)

-- What `tonumber` reads of a text that `tostring` has printed, of a time in ticks and of a number of
-- parts of a token. Lua prints 14 digits.
pub record Lua : Type 0 where
  pub time : ℕ → ℕ
  pub tokens : ℕ → ℕ

-- By the 14 digits a time of ten digits before the point is off by at most half of 0.0001 seconds,
-- and tokens up to the capacity by at most half of 10 ^ -11; the whole of each leaves room for the
-- doubles that the texts are read to. The clock is meant to be decimal, with a power of ten for `hz`.
pub record Prints (hz : ℕ) (lua : Lua) : Type 0 where
  pub not_late : (now : ℕ) → now < 10_000_000_000 * hz → lua.time now ≤ now + hz / 10_000
  pub not_early : (now : ℕ) → now < 10_000_000_000 * hz → now ≤ lua.time now + hz / 10_000
  pub not_more : (n : ℕ) → n ≤ 120 * hz → lua.tokens n ≤ n + hz / 100_000_000_000
  pub not_less : (n : ℕ) → n ≤ 120 * hz → n ≤ lua.tokens n + hz / 100_000_000_000

pub record Reply : Type 0 where
  pub allowed : Bool
  pub tokens : ℕ
  pub bucket : Bucket

-- The Lua script. `capacity` and `requested` are in parts of a token, `ttl` in ticks.
unfoldable pub token_bucket : Lua → ℕ → ℕ → ℕ → ℕ → ℕ → Option Bucket → Reply
unfolding visible refilled
token_bucket lua capacity refill now requested ttl state =
    let tokens = refilled capacity refill now (visible now state) in
    let allowed = leb requested tokens in
    let left = if allowed then tokens - requested else tokens in
    record {
      allowed = allowed;
      tokens = lua.tokens left;
      bucket = record { tokens = lua.tokens left; ts = lua.time now; expires = now + ttl };
    }

pub record Decision : Type 0 where
  pub allowed : Bool
  pub retry_after : ℕ

-- The least whole number of seconds in which `parts` accrue.
abbrev pub ceil_div : ℕ → ℕ → ℕ
ceil_div parts rate = (parts + (rate - 1)) / rate

pub retry_after_seconds : ℕ → ℕ → ℕ → ℕ
retry_after_seconds hz tokens_available refill =
    if leb hz tokens_available then 0 else max 1 (ceil_div (hz - tokens_available) (hz * refill))

unfoldable pub check_rate_limit : Lua → ℕ → Redis → String → ℕ → Decision × Redis
unfolding token_bucket retry_after_seconds
check_rate_limit lua hz redis key_id now =
    let bucket_key = key_prefix ++ key_id in
    let reply =
      token_bucket lua (bucket_capacity * hz) refill_per_second now (1 * hz) (ttl_seconds * hz)
        (redis bucket_key) in
    let stored = put redis bucket_key reply.bucket in
    if reply.allowed then (record { allowed = true; retry_after = 0 }, stored) else (
      record {
        allowed = false;
        retry_after = retry_after_seconds hz reply.tokens refill_per_second;
      },
      stored,
    )

abbrev pub no_buckets : Redis
no_buckets key = none
