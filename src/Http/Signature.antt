-- ===== src/Http/Signature.antt =====
-- internal/httpapi/server.go: verifyStripeSignature. The HMAC and the decoding of hexadecimal text
-- are parameters; texts stand for sequences of bytes.
use Prim.Native.Char.{code}
use Prim.Native.String.{◌++◌}
use visto_easy.Prelude.{
  ℕ, ◌+◌, ◌*◌, ◌-◌, zero, suc, Bool, false, not, ◌&&◌, ◌||◌, String, List, [], ◌∷◌, Option, none,
  some, ◌==◌, if◌then◌else◌, on_some, trim_space, leb, eqb, ◌≡◌, refl, String-discrete,
}
use visto_easy.Prelude.Int.{ℤ, pos, negsuc}
use visto_easy.Prelude.Clock.{Time, second, minute, hour}
use visto_easy.Http.Access.{split_commas}

-- `hmac` of SHA-256 for a key and a message, and `hex.DecodeString`.
pub record Mac : Type 0 where
  pub sum : String → String → String
  pub decode : String → Option String

-- `strings.SplitN(s, "=", 2)` where it has two parts.
unfoldable split_equals : String → Option (String × String)
split_equals String.[] = none
split_equals (String.◌∷◌ c s) =
    let rest =
      on_some (split_equals s) none λ (p : String × String). some (String.◌∷◌ c p.0, p.1) in
    if eqb (code c) b'=' then some ("", s) else rest

-- The loop over the parts of the header: the last `t` and the last `v1`.
unfoldable read_parts : List String → String → String → String × String
unfolding split_equals
read_parts [] ts v1 = (ts, v1)
read_parts (part ∷ parts) ts v1 =
    on_some (split_equals (trim_space part)) (read_parts parts ts v1) λ (kv : String × String).
      read_parts parts (if kv.0 == "t" then kv.1 else ts) (if kv.0 == "v1" then kv.1 else v1)

-- The value of a text of decimal digits, after those that were read.
unfoldable digits_value : ℕ → String → Option ℕ
digits_value acc String.[] = some acc
digits_value acc (String.◌∷◌ c s) =
    let rest = digits_value (10 * acc + (code c - b'0')) s in
    if leb b'0' (code c) && leb (code c) b'9' then rest else none

unfoldable magnitude : String → Option ℕ
unfolding digits_value
magnitude s = if s == "" then none else digits_value 0 s

-- `-n`
abbrev negated : ℕ → ℤ
negated zero = pos 0
negated (suc n) = negsuc n

-- A number within the bounds of `int64`.
abbrev below : ℕ → ℤ → ℕ → Option ℤ
below bound z n = if leb n bound then some z else none

-- `strconv.ParseInt(s, 10, 64)`, none for an error.
unfoldable pub parse_int : String → Option ℤ
unfolding magnitude
parse_int String.[] = none
parse_int (String.◌∷◌ c s) =
    if eqb (code c) b'-'
    then on_some (magnitude s) none (λ n. below 9223372036854775808 (negated n) n)
    else on_some (magnitude (if eqb (code c) b'+' then s else String.◌∷◌ c s)) none
        λ n. below 9223372036854775807 (pos n) n

-- The Unix epoch.
abbrev epoch : Time
epoch = 719162 * (24 * hour)

-- The time is at most five minutes from now, before or after.
unfoldable is_recent : Time → ℤ → Bool
is_recent now (pos n) =
    leb now (epoch + n * second + 5 * minute) && leb (epoch + n * second) (now + 5 * minute)
is_recent now (negsuc n) =
    leb (now + suc n * second) (epoch + 5 * minute) && leb epoch (now + 5 * minute + suc n * second)

unfoldable pub verify_stripe_signature : Mac → Time → String → String → String → Bool
unfolding read_parts parse_int is_recent
verify_stripe_signature mac now secret payload header =
    let (ts, v1) = read_parts (split_commas header) "" "" in
    if trim_space header == ""
    then false
    else if v1 == "" || ts == ""
    then false
    else on_some (parse_int ts) false λ t.
      if not (is_recent now t)
      then false
      else on_some (mac.decode (trim_space v1)) false
          λ provided. mac.sum secret (ts ++ "." ++ payload) == provided

parse_test : parse_int "-0042" ≡ some (negsuc 41)
unfolding parse_int String-discrete
parse_test = refl
