-- ===== src/RateLimit/Retry.antt =====
-- The advice of a refusal: how long to wait, and that waiting so long is enough.
use Prim.Native.String.{◌++◌}
use crashlens.Base.{
  ℕ, ◌+◌, ◌*◌, ◌/◌, ◌≤◌, ◌<◌, ◌≡◌, ◌⊎◌, inl, inr, String, true, false, some, arith, eq_iff, leb,
  Bool-cases,
}
use crashlens.RateLimit.{
  Lua, Prints, Redis, Bucket, check_rate_limit, key_prefix, refilled, retry_after_seconds, visible,
}

-- What a refusal leaves behind, `t` tokens as they are printed, and advises: a second, or nothing
-- where a whole token is printed.
refusal_lem :
    (lua : Lua) (hz now : ℕ) (redis : Redis) (key : String)
    → 0 < hz
    → let (refusal, redis') = check_rate_limit lua hz redis key now in
      refusal.allowed ≡ false
      → (t : ℕ) × ((redis' (key_prefix ++ key)
            ≡ some (record { tokens = t; ts = lua.time now; expires = now + 180 * hz }))
          × ((1 ≤ refusal.retry_after) ⊎ (hz ≤ t)))
unfolding check_rate_limit retry_after_seconds
refusal_lem lua hz now redis key h refused =
    let t = lua.tokens (refilled (120 * hz) 1 now (visible now (redis (key_prefix ++ key)))) in
    (
      t,
      (
        ground (arith, eq_iff (key_prefix ++ key) (key_prefix ++ key)),
        elim (Bool-cases (leb hz t)) [
          | inl whole ↦ inr (ground arith)
          | inr part ↦ inl (ground arith)
        ],
      ),
    )

-- A key has a token where its bucket holds one, and a second after its last request.
token_there :
    (lua : Lua) (hz later : ℕ) (redis : Redis) (key : String) (b : Bucket)
    → redis (key_prefix ++ key) ≡ some b
    → (b.ts + hz ≤ later) ⊎ (hz ≤ b.tokens)
    → (check_rate_limit lua hz redis key later).0.allowed ≡ true
unfolding check_rate_limit
token_there lua hz later redis key b stored (inl wait) = ground arith
token_there lua hz later redis key b stored (inr whole) = ground arith

-- Retry-After is enough, but for the rounding of the time that the script stores: a request of the same
-- key that comes 0.0001 seconds after the advised wait or later, with no other request of the key
-- between, is let through. And a refused request is told to wait at least a second, or a request at
-- the same time, right after it, is let through. The clock has `hz` > 0 ticks a second, its time has
-- ten digits and Lua prints 14.
pub retry_after_suffices :
    (lua : Lua) (hz now later : ℕ) (redis : Redis) (key : String)
    → 0 < hz
    → Prints hz lua
    → now < 10_000_000_000 * hz
    → (check_rate_limit lua hz redis key now).0.allowed ≡ false
    → now + (check_rate_limit lua hz redis key now).0.retry_after * hz + hz / 10_000 ≤ later
    → let (refusal, redis') = check_rate_limit lua hz redis key now in
      ((check_rate_limit lua hz redis' key later).0.allowed ≡ true)
      × ((1 ≤ refusal.retry_after) ⊎ ((check_rate_limit lua hz redis' key now).0.allowed ≡ true))
retry_after_suffices lua hz now later redis key h prints soon refused wait =
    let (t, (stored, told)) = refusal_lem lua hz now redis key h refused in
    let redis' = (check_rate_limit lua hz redis key now).1 in
    let b : Bucket = record { tokens = t; ts = lua.time now; expires = now + 180 * hz } in
    let close = prints.not_late now soon in
    elim told [
      | inl second ↦ (
        token_there lua hz later redis' key b stored (inl (grind (arith, second, close))),
        inl second,
      )
      | inr whole ↦ (
        token_there lua hz later redis' key b stored (inr whole),
        inr (token_there lua hz now redis' key b stored (inr whole)),
      )
    ]

-- A bucket that Redis has dropped was full again by then: had its key not expired, the refill would
-- have given the capacity. The bucket is one that the limiter stored at a time of ten digits, `hz`
-- ticks a second, and Lua prints 14 digits.
pub expiry_harmless :
    (lua : Lua) (hz now later : ℕ) (redis : Redis) (key : String) (b : Bucket)
    → Prints hz lua
    → now < 10_000_000_000 * hz
    → (check_rate_limit lua hz redis key now).1 (key_prefix ++ key) ≡ some b
    → b.expires ≤ later
    → refilled (120 * hz) 1 later (some b) ≡ 120 * hz
unfolding check_rate_limit refilled
expiry_harmless lua hz now later redis key b prints soon stored gone =
    ground (arith, prints.not_late now soon, eq_iff (key_prefix ++ key) (key_prefix ++ key))
