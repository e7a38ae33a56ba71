-- ===== src/Http/Auth.antt =====
-- internal/httpapi/server.go: the login, and the sessions that it opens.
pub mod Admission
use Prim.Native.Nat.{◌/◌}
use visto_easy.Prelude.{
  ℕ, ◌+◌, ◌*◌, Bool, true, false, not, ◌&&◌, ◌||◌, String, Option, none, some, ◌==◌, if◌then◌else◌,
  on_some, trim_space, to_lower,
}
use visto_easy.Prelude.Int.{ℤ, pos}
use visto_easy.Prelude.Clock.{Time, Duration, Env, skip, second, hour}
use visto_easy.Model.{
  Fields, str, int, end, field, role_name, Utente, RefreshSession, SecurityEvent, AuditEvent,
}
use visto_easy.Store.State.{MemoryStore, Outcome, Result, ok, err, on_result}
use visto_easy.Store.Users.{get_user_by_email}
use visto_easy.Store.Sessions.{
  create_refresh_session, get_refresh_session_by_id, revoke_refresh_session,
}
use visto_easy.Http.RateLimit.{SimpleRateLimiter}
use visto_easy.Http.LoginLock.{LoginLockTracker, is_locked, record_failure, clear}
use visto_easy.Http.Reply.{
  Claims, Client, Reply, Served, write_json, write_err, undecoded, security_event, audit_event,
  record_security_event, add_audit, retry_body, login_body, tokens_body, status_body,
}
use visto_easy.Http.Access.{is_backoffice_role}
use visto_easy.Http.Tokens.{
  TokenManager, Crypto, sign_access, sign_refresh_with_jti, parse, validate_totp,
}

-- The parts of `Server` that change.
pub record Server : Type 0 where
  pub store : MemoryStore
  pub auth_rl : SimpleRateLimiter
  pub login_lt : LoginLockTracker

pub record LoginRequest : Type 0 where
  pub email : String
  pub password : String
  pub otp : String

-- `int(d.Seconds())`
abbrev seconds : Duration → ℕ
seconds d = d / second

-- `s.recordSecurityEvent(evt)` on the server.
abbrev pub logged : Env → SecurityEvent → Server → Server
logged e evt v = record v { store = record_security_event e evt v.store }

-- The event of a login, with the caller and the address.
abbrev login_event : Client → String → String → String → SecurityEvent
login_event client email type outcome = record (security_event type outcome) {
  email = email;
  ip = client.ip;
  user_agent = client.user_agent;
}

-- The event and the reply for an account that is locked.
abbrev refuse_locked : Env → Client → String → String → Duration → Server → Server × Reply
refuse_locked e client email outcome remaining v = (
  logged e
      (record (login_event client email "LOGIN_LOCKED" outcome) {
        metadata = field "retry_after_seconds" (int (pos (seconds remaining))) end;
      })
      v,
  write_json 429 (retry_body "troppi tentativi di login, riprova più tardi" (seconds remaining)),
)

-- The user whose address and password the request has.
unfoldable pub credentials : Crypto → String → String → MemoryStore → Option Utente
credentials crypto email password s =
    on_result (get_user_by_email email s) (λ _. none)
      λ u.
        if u.password_hash == "" || not (crypto.compare_hash_and_password u.password_hash password)
        then none
        else some u

-- The session that a login or a refresh opens.
abbrev pub opened : String → String → String → Time → RefreshSession
opened id user role now = record {
  id = id;
  user_id = user;
  role = role;
  revoked = false;
  revoked_at = none;
  replaced_by = "";
  expires_at = now + 7 * 24 * hour;
  creato_il = 0;
  aggiornato_il = 0;
}

-- The end of a login that goes through.
unfoldable pub admit : TokenManager → Env → Client → String → Utente → Server → Server × Reply
admit m e client email u v =
    let v1 : Server = record v { login_lt = clear email v.login_lt } in
    let v2 : Server =
      logged e (record (login_event client email "LOGIN_SUCCESS" "ok") { user_id = u.id }) v1 in
    let role = role_name u.ruolo in
    let access = sign_access m (skip 1 e) u.id role in
    let id = e.uuid 1 in
    let refresh = sign_refresh_with_jti m (skip 3 e) u.id role id in
    let o = create_refresh_session (skip 6 e) (opened id u.id role (e.now 5)) v2.store in
    (record v2 { store = o.0 }, write_json 200 (login_body access refresh u))

-- What follows the check of the password: the state of the account, and the second factor.
unfoldable pub second_factor :
    TokenManager → Crypto → Env → Client → String → String → Utente → Server → Server × Reply
unfolding admit
second_factor m crypto e client email otp u v =
    let failed : String → Reply → Server × Reply = λ outcome reply. (
      logged (skip 1 e)
          (record (login_event client email "LOGIN_FAILED" outcome) { user_id = u.id }) v,
      reply,
    ) in
    if not u.attivo || not u.email_verificata
    then failed "account_not_verified" (write_err 403 "account non ancora verificato")
    else if is_backoffice_role u.ruolo
        && u.totp_enabled
        && not (validate_totp crypto (e.now 0) otp u.totp_secret)
    then failed "invalid_totp" (write_err 401 "codice 2fa non valido")
    else admit m (skip 1 e) client email u v

-- The reply to a wrong address or password, which counts as a failure.
unfoldable pub reject : Env → Client → String → Server → Server × Reply
reject e client email v =
    let (lt, locked, remaining) = record_failure (e.now 0) (e.now 1) email v.login_lt in
    let v1 : Server = record v { login_lt = lt } in
    if locked then refuse_locked (skip 2 e) client email "threshold_reached" remaining v1 else (
      logged (skip 2 e) (login_event client email "LOGIN_FAILED" "invalid_credentials") v1,
      write_err 401 "credenziali non valide",
    )

-- The login of an address that is not empty.
unfoldable pub login :
    TokenManager → Crypto → Env → Client → String → LoginRequest → Server → Server × Reply
unfolding credentials second_factor reject
login m crypto e client email req v =
    let (lt, locked, remaining) = is_locked (e.now 0) (e.now 1) email v.login_lt in
    let v1 : Server = record v { login_lt = lt } in
    if locked
    then refuse_locked (skip 2 e) client email "blocked" remaining v1
    else on_some (credentials crypto email req.password v1.store)
        (reject (skip 2 e) client email v1)
        λ u. second_factor m crypto (skip 2 e) client email req.otp u v1

unfoldable pub handle_login :
    TokenManager → Crypto → Env → Client → Option LoginRequest → Server → Server × Reply
unfolding login
handle_login m crypto e client body v =
    on_some body (v, undecoded)
      λ req.
        let email = to_lower (trim_space req.email) in
        if email == ""
        then (
          logged e (login_event client "" "LOGIN_FAILED" "invalid_email") v,
          write_err 401 "credenziali non valide",
        )
        else login m crypto e client email req v
