-- ===== src/Http/Refresh.antt =====
-- internal/httpapi/server.go: the refresh of a session, and the logout.
pub mod Rotation
use Prim.Native.Nat.{◌/◌}
use visto_easy.Prelude.{
  ℕ, ◌+◌, ◌*◌, Bool, true, false, not, ◌&&◌, ◌||◌, String, Option, none, some, ◌==◌, if◌then◌else◌,
  on_some, trim_space, to_lower,
}
use visto_easy.Prelude.Int.{ℤ, pos}
use visto_easy.Prelude.Clock.{Time, Duration, Env, skip, second, hour}
use visto_easy.Model.{
  Fields, str, int, end, field, role_name, Utente, RefreshSession, SecurityEvent, AuditEvent,
}
use visto_easy.Store.State.{MemoryStore, Outcome, Result, ok, err, on_result}
use visto_easy.Store.Users.{get_user_by_email}
use visto_easy.Store.Sessions.{
  create_refresh_session, get_refresh_session_by_id, revoke_refresh_session,
}
use visto_easy.Http.RateLimit.{SimpleRateLimiter}
use visto_easy.Http.LoginLock.{LoginLockTracker, is_locked, record_failure, clear}
use visto_easy.Http.Reply.{
  Claims, Client, Reply, Served, write_json, write_err, undecoded, security_event, audit_event,
  record_security_event, add_audit, retry_body, login_body, tokens_body, status_body,
}
use visto_easy.Http.Access.{is_backoffice_role}
use visto_easy.Http.Tokens.{
  TokenManager, Crypto, sign_access, sign_refresh_with_jti, parse, validate_totp,
}
use visto_easy.Http.Auth.{opened}

-- The audit event of a refresh that is refused, and the reply.
abbrev refuse_refresh : Env → Client → String → String → String → String → MemoryStore → Served
refuse_refresh e client actor role session reason s = (
  add_audit e
      (record (audit_event "AUTH_REFRESH_REJECTED" "refresh_session") {
        actor_id = actor;
        actor_role = role;
        resource_id = session;
        ip = client.ip;
        details = field "reason" (str reason) end;
      })
      s,
  write_err 401 "refresh token non valido",
)

-- The session is revoked, or belongs to another user or role than the token says.
abbrev pub is_foreign : Claims → RefreshSession → Bool
is_foreign c r = r.revoked || not (r.user_id == c.user_id) || not (r.role == c.role)

-- The new session is opened before the old one is revoked.
unfoldable pub rotate : TokenManager → Env → Client → Claims → MemoryStore → Served
rotate m e client c s =
    let access = sign_access m e c.user_id c.role in
    let id = e.uuid 0 in
    let refresh = sign_refresh_with_jti m (skip 2 e) c.user_id c.role id in
    let s1 = (create_refresh_session (skip 5 e) (opened id c.user_id c.role (e.now 4)) s).0 in
    let s2 = (revoke_refresh_session (skip 6 e) c.id id s1).0 in
    (
      add_audit (skip 7 e)
          (record (audit_event "AUTH_REFRESH_ROTATED" "refresh_session") {
            actor_id = c.user_id;
            actor_role = c.role;
            resource_id = c.id;
            ip = client.ip;
            details = field "new_refresh_session_id" (str id) end;
          })
          s2,
      write_json 200 (tokens_body access refresh),
    )

-- A refresh with the claims of a token.
unfoldable pub refresh_with : TokenManager → Env → Client → Claims → MemoryStore → Served
unfolding rotate
refresh_with m e client c s =
    if trim_space c.id == ""
    then refuse_refresh e client c.user_id c.role "" "missing_session_id" s
    else let (s1, r) = get_refresh_session_by_id e c.id s in
      on_result r (λ _. refuse_refresh (skip 1 e) client c.user_id c.role c.id "invalid_session" s1)
        λ session.
          if is_foreign c session
          then refuse_refresh (skip 1 e) client c.user_id c.role c.id "invalid_session" s1
          else rotate m (skip 1 e) client c s1

unfoldable pub handle_refresh : TokenManager → Env → Client → Option String → MemoryStore → Served
unfolding refresh_with
handle_refresh m e client body s =
    on_some body (s, undecoded)
      λ token.
        on_some (parse m (e.now 0) token)
          (refuse_refresh (skip 1 e) client "" "" "" "invalid_token" s)
          λ c.
            if not (c.type == "refresh")
            then refuse_refresh (skip 1 e) client "" "" "" "invalid_token" s
            else refresh_with m (skip 1 e) client c s

-- The reply is the same whatever the token is. After a body that is not decoded the code goes on
-- and writes the reply of a logout too; the first reply's status is the one that is sent.
unfoldable pub handle_logout : TokenManager → Env → Client → Option String → MemoryStore → Served
handle_logout m e client body s =
    let done : MemoryStore → Served = λ s'. (s', write_json 200 (status_body "logged_out" end)) in
    on_some body (s, undecoded)
      λ token.
        if trim_space token == ""
        then done s
        else on_some (parse m (e.now 0) token) (done s) λ c.
          if not (c.type == "refresh") || trim_space c.id == ""
          then done s
          else let (s1, r) = revoke_refresh_session (skip 1 e) c.id "" s in
            on_result r (λ _. done s1)
              λ revoked.
                if not revoked
                then done s1
                else done (
                    add_audit (skip 2 e)
                      (record (audit_event "AUTH_LOGOUT" "refresh_session") {
                        actor_id = c.user_id;
                        actor_role = c.role;
                        resource_id = c.id;
                        ip = client.ip;
                      })
                      s1)
