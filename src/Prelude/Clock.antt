-- ===== src/Prelude/Clock.antt =====
-- Go's package time as the program uses it. A `Time` is a number of nanoseconds since the zero
-- time, which is 1 January of the year 1, so `IsZero` is a comparison with 0. A `Duration` is a
-- number of nanoseconds too.
use Prim.Native.Nat.{ℕ, zero, suc, ◌+◌, ◌-◌, ◌*◌, ◌/◌, ◌%◌, ◌^◌, ◌<◌, ◌≤◌}
use Prim.Native.String.{◌++◌, String, char_at, ◌∷◌}
use mathlib.Core.Path.{◌≡◌, refl}
use native.Mathlib.Omega.{arith}
use mathlib.Core.Bool.{Bool, false}
use mathlib.Core.Option.{Option, none, some}
use visto_easy.Prelude.Tests.{ltb, leb, if◌then◌else◌}

abbrev pub Time : Type 0
Time = ℕ

abbrev pub Duration : Type 0
Duration = ℕ

abbrev pub second : Duration
second = 1000000000

abbrev pub minute : Duration
minute = 60000000000

abbrev pub hour : Duration
hour = 3600000000000

-- `t.IsZero()`
abbrev pub is_zero : Time → Bool
is_zero t = ltb t 1

-- `t.After(u)`, and `u.Before(t)`
abbrev pub after : Time → Time → Bool
after t u = ltb u t

-- `now.After(*p)` for an optional time: false where there is none.
abbrev pub after_opt : Time → Option Time → Bool
after_opt t none = false
after_opt t (some u) = after t u

-- `now.Add(time.Duration(ttl) * time.Minute)`: the product is an int64, which wraps around. A
-- time before the year 1 is the year 1 here.
abbrev pub after_minutes : Time → ℕ → Time
after_minutes now ttl =
    let d = ttl * minute % 2 ^ 64 in if ltb d (2 ^ 63) then now + d else now - (2 ^ 64 - d)

-- What the outside gives an operation: its readings of the clock, and the identifiers that
-- package uuid makes, both numbered in the order of the calls.
pub record Env : Type 0 where
  pub now : ℕ → Time
  pub uuid : ℕ → String

-- What is left of it for a later part of an operation, once `k` of each have been taken.
abbrev pub skip : ℕ → Env → Env
skip k e = record { now = λ i. e.now (i + k); uuid = λ i. e.uuid (i + k) }

-- The decimal digits of a number, at least `width` of them. The fuel counts the digits made.
digits : ℕ → ℕ → ℕ → String → String
digits zero width n acc = acc
digits (suc f) width n acc =
    let rest = digits f (width - 1) (n / 10) (char_at "0123456789" (n % 10) ∷ acc) in
    if leb n 0 then (if leb width 0 then acc else rest) else rest

-- Fuel for as many digits as the number and the width have is enough: more gives the same text.
digits-enough :
    (f k width n : ℕ) (acc : String)
    → n < 10 ^ f
    → width ≤ f
    → digits (f + k) width n acc ≡ digits f width n acc
unfolding digits
digits-enough zero zero width n acc small narrow = refl
digits-enough zero (suc k) width n acc small narrow =
    let z : n ≡ 0 = omega arith in
    let w : width ≡ 0 = omega arith in let e : 0 + suc k ≡ suc k = omega arith in rw (e, z, w) refl
digits-enough (suc f) k width n acc small narrow =
    let e : suc f + k ≡ suc (f + k) = omega arith in
    let p : 10 ^ suc f ≡ 10 * 10 ^ f = grind arith in
    let less : n / 10 < 10 ^ f = omega (arith, p) in
    rw e (
      rw
        (digits-enough f k (width - 1) (n / 10) (char_at "0123456789" (n % 10) ∷ acc) less
          (omega arith))
        refl)

-- `fmt.Sprintf("%0*d", width, n)` for a number of at most 20 digits, as every uint64 is.
unfoldable pub decimal : ℕ → ℕ → String
unfolding digits
decimal width n = digits 20 width n ""

record Date : Type 0 where
  year : ℕ
  month : ℕ
  day : ℕ

-- The date of a day of the Gregorian calendar, by eras of 400 years that begin in March.
date : Time → Date
date t =
    let z = t / (24 * hour) + 306 in
    let doe = z % 146097 in
    let yoe = (doe - doe / 1460 + doe / 36524 - doe / 146096) / 365 in
    let doy = doe - (365 * yoe + yoe / 4 - yoe / 100) in
    let mp = (5 * doy + 2) / 153 in
    let month = if ltb mp 10 then mp + 3 else mp - 9 in
    record {
      year = yoe + z / 146097 * 400 + (if leb month 2 then 1 else 0);
      month = month;
      day = doy - (153 * mp + 2) / 5 + 1;
    }

-- `t.Year()`
unfoldable pub year : Time → ℕ
unfolding date
year t = (date t).year

-- `t.Format(time.RFC3339)` of a time in UTC.
unfoldable pub format_rfc3339 : Time → String
unfolding date decimal
format_rfc3339 t =
    let d = date t in
    decimal 4 d.year
    ++ "-"
    ++ decimal 2 d.month
    ++ "-"
    ++ decimal 2 d.day
    ++ "T"
    ++ decimal 2 (t / hour % 24)
    ++ ":"
    ++ decimal 2 (t / minute % 60)
    ++ ":"
    ++ decimal 2 (t / second % 60)
    ++ "Z"

-- 719162 days lie between the zero time and the Unix epoch.
epoch_test : format_rfc3339 (719162 * (24 * hour) + 3661 * second) ≡ "1970-01-01T01:01:01Z"
unfolding format_rfc3339
epoch_test = refl

leap_test : format_rfc3339 ((719162 + 19782) * (24 * hour)) ≡ "2024-02-29T00:00:00Z"
unfolding format_rfc3339
leap_test = refl

decimal_test : decimal 6 123 ≡ "000123"
unfolding decimal
decimal_test = refl
