-- ===== src/Http/LoginLock.antt =====
-- internal/httpapi/server.go: loginLockTracker, which locks an account after failed logins. Its
-- maxAttempts is an int that NewServer makes positive.
pub mod Lockout
use visto_easy.Prelude.{
  ℕ, ◌+◌, ◌-◌, Bool, true, false, not, ◌||◌, ◌&&◌, String, List, [], ◌∷◌, Option, none, some,
  if◌then◌else◌, on_some, leb, ltb,
}
use visto_easy.Prelude.Clock.{Time, Duration, is_zero, after}
use visto_easy.Prelude.Dict.{Dict, lookup, insert, erase}

pub record LoginAttempt : Type 0 where
  pub count : ℕ
  pub window_start : Time
  pub locked_until : Time

pub record LoginLockTracker : Type 0 where
  pub max_attempts : ℕ
  pub window : Duration
  pub entries : Dict LoginAttempt

unfoldable pub new_login_lock_tracker : ℕ → Duration → LoginLockTracker
new_login_lock_tracker n w = record { max_attempts = n; window = w; entries = [] }

-- `now.Before(entry.lockedUntil)`
abbrev is_before : Time → Time → Bool
is_before now u = ltb now u

-- Whether the account is locked, and for how long. The clock is read a second time, `later`, for
-- the rest of the lock; it is taken as 0 where that reading comes after the end.
unfoldable pub is_locked :
    Time → Time → String → LoginLockTracker → LoginLockTracker × Bool × Duration
is_locked now later email t =
    on_some (lookup email t.entries) (t, false, 0)
      λ a.
        if is_before now a.locked_until
        then (t, true, a.locked_until - later)
        else if not (is_zero a.locked_until) && after now a.locked_until
        then (record t { entries = erase email t.entries }, false, 0)
        else (t, false, 0)

-- `t.entries[email]`: the zero entry where the key is missing.
abbrev pub entry_of : String → LoginLockTracker → LoginAttempt
entry_of email t =
    on_some (lookup email t.entries) (record { count = 0; window_start = 0; locked_until = 0 })
      λ a. a

-- The entry that counts at a time: a new one if there is none or its window is over.
abbrev pub fresh_entry : Time → Duration → LoginAttempt → LoginAttempt
fresh_entry now window a =
    if is_zero a.window_start || ltb window (now - a.window_start)
    then record { count = 0; window_start = now; locked_until = 0 }
    else a

-- The entry after one more failure.
abbrev pub failed : Time → LoginLockTracker → LoginAttempt → LoginAttempt
failed now t a = record a {
  count = a.count + 1;
  locked_until = if leb t.max_attempts (a.count + 1) then now + t.window else a.locked_until;
}

abbrev pub put_entry : String → LoginAttempt → LoginLockTracker → LoginLockTracker
put_entry email a t = record t { entries = insert email a t.entries }

-- A failure that is counted in an entry.
abbrev count_failure :
    Time → Time → String → LoginAttempt → LoginLockTracker → LoginLockTracker × Bool × Duration
count_failure now later email a t =
    if is_before now a.locked_until
    then (t, true, a.locked_until - later)
    else let a' = failed now t a in
      if is_before now a'.locked_until
      then (put_entry email a' t, true, a'.locked_until - later)
      else (put_entry email a' t, false, 0)

unfoldable pub record_failure :
    Time → Time → String → LoginLockTracker → LoginLockTracker × Bool × Duration
record_failure now later email t =
    count_failure now later email (fresh_entry now t.window (entry_of email t)) t

unfoldable pub clear : String → LoginLockTracker → LoginLockTracker
clear email t = record t { entries = erase email t.entries }
