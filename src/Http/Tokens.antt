-- ===== src/Http/Tokens.antt =====
-- internal/auth/auth.go and internal/auth/totp.go. Package jwt, which signs and parses, package
-- totp and package bcrypt are parameters.
use visto_easy.Prelude.{
  ◌+◌, ◌*◌, Bool, String, Option, none, some, ◌==◌, if◌then◌else◌, trim_space, ltb, byte_length,
}
use Prim.Native.Nat.{◌/◌}
use visto_easy.Prelude.Clock.{Time, Env, second, minute, hour}
use visto_easy.Http.Reply.{Claims}

-- Package jwt with a secret: the text of a signed token, and the claims of a text that is a valid
-- token at a time.
pub record Jwt : Type 0 where
  pub signed_string : String → Claims → String
  pub parse_with_claims : String → Time → String → Option Claims

-- Packages bcrypt and totp: whether a password has a hash, the hash that is made for a password,
-- whether a code is valid for a secret at a time, and the secret and link made for an account.
pub record Crypto : Type 0 where
  pub compare_hash_and_password : String → String → Bool
  pub generate_from_password : String → Option String
  pub validate_custom : String → String → Time → Bool
  pub generate : String → String → Option (String × String)

pub record TokenManager : Type 0 where
  pub jwt : Jwt
  pub secret : String

-- `NewTokenManager`, none for its error.
unfoldable pub new_token_manager : Jwt → String → Option TokenManager
new_token_manager jwt secret =
    if ltb (byte_length secret) 32 then none else some (record { jwt = jwt; secret = secret })

-- `jwt.NewNumericDate(t)`: whole seconds.
abbrev numeric_date : Time → Time
numeric_date t = t / second * second

-- The claims that `SignAccess` signs, and those that `SignRefreshWithJTI` signs.
abbrev access_claims : Env → String → String → Claims
access_claims e user role = record {
  user_id = user;
  role = role;
  type = "access";
  id = "";
  expires_at = numeric_date (e.now 0 + 15 * minute);
  issued_at = numeric_date (e.now 1);
}

abbrev refresh_claims : Env → String → String → String → Claims
refresh_claims e user role jti = record {
  user_id = user;
  role = role;
  type = "refresh";
  id = if trim_space jti == "" then e.uuid 0 else trim_space jti;
  expires_at = numeric_date (e.now 0 + 7 * 24 * hour);
  issued_at = numeric_date (e.now 1);
}

unfoldable pub sign_access : TokenManager → Env → String → String → String
sign_access m e user role = m.jwt.signed_string m.secret (access_claims e user role)

unfoldable pub sign_refresh_with_jti : TokenManager → Env → String → String → String → String
sign_refresh_with_jti m e user role jti =
    m.jwt.signed_string m.secret (refresh_claims e user role jti)

unfoldable pub sign_refresh : TokenManager → Env → String → String → String
unfolding sign_refresh_with_jti
sign_refresh m e user role = sign_refresh_with_jti m e user role ""

-- `m.Parse(tokenStr)` at a time, none for an error.
unfoldable pub parse : TokenManager → Time → String → Option Claims
parse m now token = m.jwt.parse_with_claims m.secret now token

-- `ValidateTOTP(code, secret)` at a time.
unfoldable pub validate_totp : Crypto → Time → String → String → Bool
validate_totp c now code secret = c.validate_custom (trim_space code) (trim_space secret) now

-- `GenerateTOTPSecret(accountName, issuer)`, none for an error.
unfoldable pub generate_totp_secret : Crypto → String → String → Option (String × String)
generate_totp_secret c account issuer =
    c.generate (if trim_space issuer == "" then "Visto Easy" else issuer) (trim_space account)
