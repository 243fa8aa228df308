-- ===== src/RateLimit/Tests.antt =====
-- Witnesses and runs of the limiter.
use crashlens.Base.{
  ℕ, ◌+◌, ◌-◌, ◌*◌, ◌/◌, ◌≤◌, ◌≡◌, ◌⊎◌, refl, String, true, some, List, [], ◌∷◌, arith, string_eq,
}
use crashlens.RateLimit.{Lua, Prints, Redis, no_buckets, check_rate_limit, refilled}
use crashlens.RateLimit.Bound.{admitted, requests_of, admitted-le}
use crashlens.RateLimit.Retry.{retry_after_suffices, expiry_harmless}

-- A clock of microseconds, whose time is stored in steps of 0.0001 seconds; tokens keep theirs.
abbrev printed : Lua
printed = record { time = λ now. 100 * (now / 100); tokens = λ n. n }

printed-Prints : Prints 1_000_000 printed
printed-Prints = record {
  not_late = λ now soon. omega arith;
  not_early = λ now soon. omega arith;
  not_more = λ n full. omega arith;
  not_less = λ n full. omega arith;
}

abbrev burst : List (String × ℕ)
burst = ("a", 40) ∷ ("b", 5_000) ∷ ("a", 10_040) ∷ ("a", 900_000) ∷ []

admitted-le_example :
    admitted printed 1_000_000 "a" no_buckets burst * 1_000_000
    ≤ 120 * 1_000_000
      + (1_000_000 - 0)
      + requests_of "a" burst * (1_000_000 / 10_000 + 1_000_000 / 100_000_000_000)
admitted-le_example =
    admitted-le printed 1_000_000 "a" 0 1_000_000 burst (omega arith) printed-Prints (omega arith)
      (omega arith)

-- Half a token is left.
abbrev drained : Redis
drained key = some (record { tokens = 500_000; ts = 0; expires = 180_000_000 })

retry_after_suffices_example :
    let (refusal, redis') = check_rate_limit printed 1_000_000 drained "a" 60 in
    ((check_rate_limit printed 1_000_000 redis' "a" 1_000_160).0.allowed ≡ true)
    × ((1 ≤ refusal.retry_after)
        ⊎ ((check_rate_limit printed 1_000_000 redis' "a" 60).0.allowed ≡ true))
unfolding check_rate_limit
retry_after_suffices_example =
    retry_after_suffices printed 1_000_000 60 1_000_160 drained "a" (omega arith) printed-Prints
      (omega arith) refl (omega arith)

expiry_harmless_example :
    refilled
      (120 * 1_000_000)
      1
      200_000_000
      (some (record { tokens = 119_000_000; ts = 0; expires = 180_000_000 }))
    ≡ 120 * 1_000_000
unfolding check_rate_limit
expiry_harmless_example =
    expiry_harmless printed 1_000_000 0 200_000_000 no_buckets "a"
      (record { tokens = 119_000_000; ts = 0; expires = 180_000_000 }) printed-Prints (omega arith)
      refl (omega arith)
