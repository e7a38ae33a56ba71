-- ===== src/Http/RateLimit/Window.antt =====
-- How many calls simpleRateLimiter lets through.
use Prim.Native.Nat.{min}
use visto_easy.Prelude.{
  ℕ, suc, ◌+◌, ◌-◌, ◌≤◌, ◌<◌, ◌≡◌, refl, inl, inr, Bool, true, false, ◌||◌, String, List, [], ◌∷◌,
  some, arith, leb, Bool-cases, All, length,
}
use visto_easy.Prelude.Clock.{Time, Duration, is_zero, after}
use visto_easy.Prelude.Dict.{lookup, lookup-insert_self}
use visto_easy.Http.RateLimit.{
  RateBucket, SimpleRateLimiter, bucket_of, current, put_bucket, spend, allow,
}

abbrev count_true : Bool → ℕ → ℕ
count_true true n = suc n
count_true false n = n

-- Calls under one key at given times, and how many of them are allowed.
unfoldable pub allowed : String → SimpleRateLimiter → List Time → ℕ
allowed key l [] = 0
allowed key l (t ∷ ts) =
    let (l', yes', wait) = allow t t key l in count_true yes' (allowed key l' ts)

-- Every time lies before the end of the window.
abbrev pub AllWithin : Time → List Time → Type 0
AllWithin end = All λ t. t ≤ end

-- In a window that runs, a call is counted in its bucket.
allow_running :
    (t u : Time) (key : String) (l : SimpleRateLimiter) (b : RateBucket)
    → lookup key l.bucket_by_k ≡ some b
    → 0 < b.reset_at
    → t ≤ b.reset_at
    → allow t u key l ≡ spend u key b l
unfolding allow
allow_running t u key l b found live within =
    let same : current t l.window b ≡ b = ground arith in rw found (rw same refl)

allowed_running :
    (key : String) (ts : List Time) (l : SimpleRateLimiter) (b : RateBucket)
    → lookup key l.bucket_by_k ≡ some b
    → 0 < b.reset_at
    → AllWithin b.reset_at ts
    → allowed key l ts ≡ min (length ts) (l.limit - b.count)
unfolding allowed
allowed_running key [] l b found live h = omega arith
allowed_running key (t ∷ ts) l b found live (h, hs) =
    rw (allow_running t t key l b found live h) (elim (Bool-cases (leb l.limit b.count)) [
      | inl full ↦ rw full (
          ground (
            arith,
            allowed_running key ts (put_bucket key b l) b (lookup-insert_self key b l.bucket_by_k)
                live hs,
          ))
      | inr free ↦
          let b' : RateBucket = record b { count = b.count + 1 } in
          rw free (
            ground (
              arith,
              allowed_running key ts (put_bucket key b' l) b'
                  (lookup-insert_self key b' l.bucket_by_k) live hs,
            ))
    ])

-- No call has been made under the key, or the window of its last bucket is over.
abbrev pub IsIdle : Time → String → SimpleRateLimiter → Type 0
IsIdle t key l = (is_zero (bucket_of key l).reset_at || after t (bucket_of key l).reset_at) ≡ true

-- A window lets through as many calls as the limit says: where the key has no window that runs at
-- a time after zero, of the calls under the key at that time and at any later times of the list
-- up to the window's end, exactly the smaller of their number and the limit are allowed.
pub allowed-window :
    (key : String) (t : Time) (ts : List Time) (l : SimpleRateLimiter)
    → 0 < t
    → IsIdle t key l
    → AllWithin (t + l.window) ts
    → allowed key l (t ∷ ts) ≡ min (length (t ∷ ts)) l.limit
unfolding allowed allow
allowed-window key t ts l pos idle hs =
    let b : RateBucket = record { count = 0; reset_at = t + l.window } in
    let b' : RateBucket = record { count = 1; reset_at = t + l.window } in
    rw idle (elim (Bool-cases (leb l.limit 0)) [
      | inl full ↦ rw full (
          ground (
            arith,
            allowed_running key ts (put_bucket key b l) b (lookup-insert_self key b l.bucket_by_k)
                (omega arith) hs,
          ))
      | inr free ↦ rw free (
          ground (
            arith,
            allowed_running key ts (put_bucket key b' l) b'
                (lookup-insert_self key b' l.bucket_by_k) (omega arith) hs,
          ))
    ])

-- What another key reads after a call.
abbrev Reads :
    Time → Time → String → SimpleRateLimiter → SimpleRateLimiter × Bool × Duration → Type 0
Reads v w other l o = (allow v w other o.0).1 ≡ (allow v w other l).1
