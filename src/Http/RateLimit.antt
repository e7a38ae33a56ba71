-- ===== src/Http/RateLimit.antt =====
-- internal/httpapi/server.go: simpleRateLimiter, a fixed window for each key. Its limit is an
-- int; NewServer makes it positive, and a limit below 0 would act as 0 does.
pub mod Window
use visto_easy.Prelude.{
  ℕ, suc, ◌+◌, ◌-◌, Bool, true, false, ◌||◌, String, List, [], ◌∷◌, Option, none, some,
  if◌then◌else◌, on_some, leb,
}
use visto_easy.Prelude.Clock.{Time, Duration, is_zero, after}
use visto_easy.Prelude.Dict.{Dict, lookup, insert}

pub record RateBucket : Type 0 where
  pub count : ℕ
  pub reset_at : Time

pub record SimpleRateLimiter : Type 0 where
  pub limit : ℕ
  pub window : Duration
  pub bucket_by_k : Dict RateBucket

unfoldable pub new_simple_rate_limiter : ℕ → Duration → SimpleRateLimiter
new_simple_rate_limiter limit window = record { limit = limit; window = window; bucket_by_k = [] }

-- `l.bucketByK[key]`: the zero bucket where the key is missing.
abbrev pub bucket_of : String → SimpleRateLimiter → RateBucket
bucket_of key l = on_some (lookup key l.bucket_by_k) (record { count = 0; reset_at = 0 }) λ b. b

-- The bucket that counts at a time: a new one if there is none or its window is over.
abbrev pub current : Time → Duration → RateBucket → RateBucket
current now window b =
    if is_zero b.reset_at || after now b.reset_at
    then record { count = 0; reset_at = now + window }
    else b

-- `l.bucketByK[key] = b`
abbrev pub put_bucket : String → RateBucket → SimpleRateLimiter → SimpleRateLimiter
put_bucket key b l = record l { bucket_by_k = insert key b l.bucket_by_k }

-- A call that is counted in a bucket: whether it is allowed, and how long to wait if not.
abbrev pub spend :
    Time → String → RateBucket → SimpleRateLimiter → SimpleRateLimiter × Bool × Duration
spend later key b l =
    if leb l.limit b.count
    then (put_bucket key b l, false, b.reset_at - later)
    else (put_bucket key (record b { count = b.count + 1 }) l, true, 0)

-- The clock is read a second time, `later`, for the wait, which is 0 where it would be negative.
unfoldable pub allow :
    Time → Time → String → SimpleRateLimiter → SimpleRateLimiter × Bool × Duration
allow now later key l = spend later key (current now l.window (bucket_of key l)) l
