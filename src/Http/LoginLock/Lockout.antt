-- ===== src/Http/LoginLock/Lockout.antt =====
-- When loginLockTracker locks.
use native.Mathlib.Nat.{add-zero}
use visto_easy.Prelude.{
  ℕ, suc, ◌+◌, ◌-◌, ◌≤◌, ◌<◌, ◌≡◌, refl, ◌∙◌, true, false, ◌||◌, String, List, [], ◌∷◌, some, arith,
  leb, ltb, All, length, ap,
}
use visto_easy.Prelude.Clock.{Time, Duration, is_zero}
use visto_easy.Prelude.Dict.{lookup, lookup-insert_self}
use visto_easy.Http.LoginLock.{
  LoginAttempt, LoginLockTracker, is_locked, entry_of, fresh_entry, put_entry, record_failure,
}

-- Failed logins of one account at given times.
unfoldable pub failures : String → List Time → LoginLockTracker → LoginLockTracker
failures email [] t = t
failures email (now ∷ ts) t = failures email ts (record_failure now now email t).0

-- The times lie in the window that begins with the first failure.
abbrev pub AllWithin : Time → Duration → List Time → Type 0
AllWithin start window = All λ t. t - start ≤ window

-- A failure that does not reach the limit adds one to the count.
below_limit :
    (now later : Time) (email : String) (t : LoginLockTracker) (c : ℕ) (start : Time)
    → fresh_entry now t.window (entry_of email t)
      ≡ record { count = c; window_start = start; locked_until = 0 }
    → c + 1 < t.max_attempts
    → record_failure now later email t ≡ (
      put_entry email (record { count = c + 1; window_start = start; locked_until = 0 }) t,
      false,
      0,
    )
unfolding record_failure
below_limit now later email t c start e h =
    let open_ : leb t.max_attempts (c + 1) ≡ false = ground arith in
    let never : ltb now 0 ≡ false = ground arith in rw e (rw open_ (rw never refl))

-- The failure that reaches it sets the end of the lock.
at_limit :
    (now later : Time) (email : String) (t : LoginLockTracker) (c : ℕ) (start : Time)
    → fresh_entry now t.window (entry_of email t)
      ≡ record { count = c; window_start = start; locked_until = 0 }
    → t.max_attempts ≤ c + 1
    → 0 < t.window
    → record_failure now later email t ≡ (
      put_entry email
          (record { count = c + 1; window_start = start; locked_until = now + t.window })
          t,
      true,
      now + t.window - later,
    )
unfolding record_failure
at_limit now later email t c start e h w =
    let full : leb t.max_attempts (c + 1) ≡ true = ground arith in
    let never : ltb now 0 ≡ false = ground arith in
    let ahead : ltb now (now + t.window) ≡ true = ground arith in
    rw e (rw full (rw never (rw ahead refl)))

fresh_running :
    (now : Time) (email : String) (t : LoginLockTracker) (a : LoginAttempt)
    → lookup email t.entries ≡ some a
    → 0 < a.window_start
    → now - a.window_start ≤ t.window
    → fresh_entry now t.window (entry_of email t) ≡ a
fresh_running now email t a found pos h = rw found (ground arith)

add_suc-length : (c : ℕ) (ts : List Time) → c + suc (length ts) ≡ c + 1 + length ts
add_suc-length c ts = omega arith

one_add_length : (ts : List Time) → suc (length ts) ≡ 1 + length ts
one_add_length ts = omega arith

-- An entry with some failures and no lock.
abbrev unlocked : ℕ → Time → LoginAttempt
unlocked c start = record { count = c; window_start = start; locked_until = 0 }

failures_running :
    (email : String) (ts : List Time) (t : LoginLockTracker) (c : ℕ) (start : Time)
    → lookup email t.entries ≡ some (unlocked c start)
    → 0 < start
    → AllWithin start t.window ts
    → c + length ts < t.max_attempts
    → let t' = failures email ts t in
      (lookup email t'.entries ≡ some (unlocked (c + length ts) start))
      × (t'.max_attempts ≡ t.max_attempts)
      × (t'.window ≡ t.window)
unfolding failures
failures_running email [] t c start found pos h few = (rw (add-zero) found, refl, refl)
failures_running email (now ∷ ts) t c start found pos (h, hs) few =
    let run = fresh_running now email t (unlocked c start) found pos h in
    rw (below_limit now now email t c start run (omega arith), failures)
      (rw (add_suc-length c ts) (
        failures_running email ts (put_entry email (unlocked (c + 1) start) t) (c + 1) start
          (lookup-insert_self email (unlocked (c + 1) start) t.entries) pos hs (omega arith)))

-- No failure is remembered that counts at the time.
abbrev pub IsClear : Time → String → LoginLockTracker → Type 0
IsClear now email t =
    (is_zero (entry_of email t).window_start
      || ltb t.window (now - (entry_of email t).window_start))
    ≡ true

is_locked_unlocked :
    (u v : Time) (email : String) (t : LoginLockTracker) (c : ℕ) (start : Time)
    → lookup email t.entries ≡ some (unlocked c start)
    → (is_locked u v email t).1 ≡ false
unfolding is_locked
is_locked_unlocked u v email t c start found = rw found (ground arith)

is_locked_until :
    (u v : Time) (email : String) (t : LoginLockTracker) (a : LoginAttempt)
    → lookup email t.entries ≡ some a
    → (is_locked u v email t).1 ≡ ltb u a.locked_until
unfolding is_locked
is_locked_until u v email t a found = rw found (ground arith)

failures-first :
    (email : String) (start : Time) (ts : List Time) (t : LoginLockTracker)
    → 0 < start
    → IsClear start email t
    → AllWithin start t.window ts
    → length (start ∷ ts) < t.max_attempts
    → let t' = failures email (start ∷ ts) t in
      (lookup email t'.entries ≡ some (unlocked (length (start ∷ ts)) start))
      × (t'.max_attempts ≡ t.max_attempts)
      × (t'.window ≡ t.window)
unfolding failures
failures-first email start ts t pos clear' hs few =
    rw (below_limit start start email t 0 start (rw clear' refl) (omega arith), failures)
      (rw (one_add_length ts) (
        failures_running email ts (put_entry email (unlocked 1 start) t) 1 start
          (lookup-insert_self email (unlocked 1 start) t.entries) pos hs (omega arith)))

-- An account locks at the last failure allowed and not before: where the account has no window
-- that runs, and as many failures as one less than the maximum fall at times in one window of
-- positive length, which does not begin at the zero time, the account is not locked after them; after one more failure in the window it
-- is locked at exactly the times before the window's length has passed since that failure.
pub failures-lock :
    (email : String) (start : Time) (ts : List Time) (last u v : Time) (t : LoginLockTracker)
    → 0 < start
    → IsClear start email t
    → AllWithin start t.window ts
    → last - start ≤ t.window
    → 0 < t.window
    → suc (length (start ∷ ts)) ≡ t.max_attempts
    → let before = failures email (start ∷ ts) t in
      ((is_locked u v email before).1 ≡ false)
      × ((is_locked u v email (record_failure last last email before).0).1
          ≡ ltb u (last + t.window))
failures-lock email start ts last u v t pos clear' hs h wide full =
    let n = length (start ∷ ts) in
    let before = failures email (start ∷ ts) t in
    let (found, same_max, same_window) =
      failures-first email start ts t pos clear' hs (omega arith) in
    let run = fresh_running last email before (unlocked n start) found pos (rw same_window h) in
    let a : LoginAttempt = record {
      count = n + 1;
      window_start = start;
      locked_until = last + before.window;
    } in
    (
      is_locked_unlocked u v email before n start found,
      rw (at_limit last last email before n start run (omega arith) (omega arith)) (
          is_locked_until u v email (put_entry email a before) a
            (lookup-insert_self email a before.entries)
          ∙ ap (λ (w : Time). ltb u (last + w)) same_window),
    )
