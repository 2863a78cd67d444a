-- ===== src/Server/RateLimit.antt =====
-- internal/server/ratelimit.go. The rate is a fraction, tokens are counted in parts of which
-- `token_unit` make one, and times are nanoseconds, so that the float64 arithmetic of the source
-- stands here without its rounding.
pub mod Levels
pub mod Bound
pub mod Retry
pub mod Pruned
use kvp.Prelude.{
  ℕ, ◌+◌, ◌-◌, ◌*◌, ◌/◌, String, Bool, true, false, Option, none, some, List, [], ◌∷◌, ltb,
  if◌then◌else◌,
}
use kvp.Prelude.Int.{ℤ, pos, sub_ℕ, pos_part, ◌+ℤ◌, ◌-ℤ◌, ltb_ℤ}
use kvp.Assoc.{Assoc, lookup, insert}

-- `tokens` may fall below zero where the clock's readings are out of order.
pub record Bucket : Type 0 where
  pub tokens : ℤ
  pub last : ℕ

-- `rps` is `rps_num / rps_den` tokens a second; `burst` is in whole tokens.
pub record RateLimiter : Type 0 where
  pub rps_num : ℕ
  pub rps_den : ℕ
  pub burst : ℕ
  pub buckets : Assoc Bucket

abbrev pub second : ℕ
second = 1000000000

-- In one nanosecond a bucket gains `rps_num` parts.
abbrev pub token_unit : RateLimiter → ℕ
token_unit rl = rl.rps_den * second

abbrev pub full : RateLimiter → ℕ
full rl = rl.burst * token_unit rl

-- newRateLimiter
unfoldable pub new_rate_limiter : ℕ → ℕ → ℕ → RateLimiter
new_rate_limiter num den burst = record {
  rps_num = num;
  rps_den = den;
  burst = burst;
  buckets = [];
}

abbrev pub min_ℤ : ℤ → ℤ → ℤ
min_ℤ a b = if ltb_ℤ a b then a else b

-- The bucket of the key, or a full one.
abbrev pub bucket_of : RateLimiter → ℕ → Option Bucket → Bucket
bucket_of rl now none = record { tokens = pos (full rl); last = now }
bucket_of rl now (some b) = b

-- `now.Sub(b.last)` times the rate.
unfoldable pub gained : ℕ → ℕ → ℕ → ℤ
gained num last now = sub_ℕ (num * (now - last)) (num * (last - now))

unfoldable pub refill : RateLimiter → ℕ → Bucket → ℤ
refill rl now b = min_ℤ (pos (full rl)) (b.tokens +ℤ gained rl.rps_num b.last now)

-- The least whole number of `d`s that holds `n`.
abbrev pub ceil_div : ℕ → ℕ → ℕ
ceil_div n d = (n + (d - 1)) / d

-- Whole seconds until the bucket holds a token.
unfoldable pub retry_after : RateLimiter → ℤ → ℕ
retry_after rl tokens = ceil_div (pos_part (pos (token_unit rl) -ℤ tokens)) (rl.rps_num * second)

abbrev pub set_bucket : String → ℤ → ℕ → RateLimiter → RateLimiter
set_bucket key tokens now rl = record rl {
  buckets = insert key (record { tokens = tokens; last = now }) rl.buckets;
}

abbrev pub decide : String → ℕ → ℤ → RateLimiter → Bool × ℕ × RateLimiter
decide key now tokens rl =
    if ltb_ℤ tokens (pos (token_unit rl))
    then (false, retry_after rl tokens, set_bucket key tokens now rl)
    else (true, 0, set_bucket key (tokens -ℤ pos (token_unit rl)) now rl)

-- allow: the answer, the seconds of Retry-After, and the limiter.
unfoldable pub allow : String → ℕ → RateLimiter → Bool × ℕ × RateLimiter
allow key now rl = decide key now (refill rl now (bucket_of rl now (lookup key rl.buckets))) rl

abbrev pub hour : ℕ
hour = 3600 * second

-- `b.last.Before(now.Add(-time.Hour))`
abbrev pub is_idle : ℕ → Bucket → Bool
is_idle now b = ltb (b.last + hour) now

unfoldable pub prune_buckets : ℕ → Assoc Bucket → Assoc Bucket
prune_buckets now [] = []
prune_buckets now ((key, b) ∷ m) =
    let rest = prune_buckets now m in if is_idle now b then rest else (key, b) ∷ rest

unfoldable pub prune : ℕ → RateLimiter → RateLimiter
prune now rl = record rl { buckets = prune_buckets now rl.buckets }
