-- ===== src/Http/TwoFactor.antt =====
-- internal/httpapi/server.go: the second factor of a user of the back office.
use visto_easy.Prelude.{
  true, false, not, ◌&&◌, String, Option, some, ◌==◌, if◌then◌else◌, on_some, trim_space,
}
use visto_easy.Prelude.Clock.{Env, skip}
use visto_easy.Model.{str, end, field, Utente}
use visto_easy.Store.State.{MemoryStore, on_result}
use visto_easy.Store.Users.{get_user_by_id, set_user_totp_secret, set_user_totp_enabled}
use visto_easy.Http.Reply.{
  Claims, Client, Served, write_json, write_err, undecoded, security_event, record_security_event,
  record_audit_event, secret_body, status_body,
}
use visto_easy.Http.Tokens.{Crypto, validate_totp, generate_totp_secret}

-- The caller's own user.
abbrev for_self : Option Claims → MemoryStore → (Claims → Utente → Served) → Served
for_self claims s k =
    on_some claims (s, write_err 401 "non autenticato")
      λ c.
        on_result (get_user_by_id c.user_id s) (λ _. (s, write_err 404 "utente non trovato"))
          λ u. k c u

-- The security event and the audit event of a change that went through.
abbrev two_fa_events :
    Env → Client → Claims → Utente → String → String → String → MemoryStore → MemoryStore
two_fa_events e client c u type outcome action s =
    record_audit_event (skip 1 e) client (some c) action "user" u.id end (
      record_security_event e
        (record (security_event type outcome) { user_id = u.id; email = u.email; ip = client.ip })
        s)

unfoldable pub handle_2fa_setup : Crypto → Env → Client → Option Claims → MemoryStore → Served
handle_2fa_setup crypto e client claims s = for_self claims s λ c u.
    on_some (generate_totp_secret crypto u.email "Visto Easy") (s, write_err 500 "errore setup 2fa")
      λ made.
        let (s1, r) = set_user_totp_secret e u.id made.0 s in
        on_result r (λ _. (s1, write_err 500 "errore setup 2fa"))
          λ known. if not known then (s1, write_err 500 "errore setup 2fa") else (
            two_fa_events (skip 2 e) client c u "TWO_FA_SETUP" "pending_enable" "AUTH_2FA_SETUP"
                (set_user_totp_enabled (skip 1 e) u.id false s1).0,
            write_json 200 (secret_body made.0 made.1),
          )

-- The event of a code that is wrong.
abbrev wrong_code : Env → Client → Claims → Utente → String → MemoryStore → Served
wrong_code e client c u action s = (
  record_audit_event e client (some c) action "user" u.id (field "reason" (str "invalid_code") end)
      s,
  write_err 401 "codice 2fa non valido",
)

-- The body is decoded after the claims are looked at and before the user is.
unfoldable pub handle_2fa_enable :
    Crypto → Env → Client → Option Claims → Option String → MemoryStore → Served
handle_2fa_enable crypto e client claims body s =
    on_some claims (s, write_err 401 "non autenticato")
      λ _.
        on_some body (s, undecoded)
          λ code. for_self claims s λ c u.
            if trim_space u.totp_secret == ""
            then (s, write_err 400 "setup 2fa non inizializzato")
            else if not (validate_totp crypto (e.now 0) code u.totp_secret)
            then wrong_code (skip 1 e) client c u "AUTH_2FA_ENABLE_REJECTED" s
            else let (s1, r) = set_user_totp_enabled (skip 1 e) u.id true s in
              on_result r (λ _. (s1, write_err 500 "errore attivazione 2fa"))
                λ known. if not known then (s1, write_err 500 "errore attivazione 2fa") else (
                  two_fa_events (skip 2 e) client c u "TWO_FA_ENABLED" "ok" "AUTH_2FA_ENABLED" s1,
                  write_json 200 (status_body "enabled" end),
                )

unfoldable pub handle_2fa_disable :
    Crypto → Env → Client → Option Claims → Option String → MemoryStore → Served
handle_2fa_disable crypto e client claims body s =
    on_some claims (s, write_err 401 "non autenticato")
      λ _.
        on_some body (s, undecoded)
          λ code. for_self claims s λ c u.
            if u.totp_enabled && not (validate_totp crypto (e.now 0) code u.totp_secret)
            then wrong_code (skip 1 e) client c u "AUTH_2FA_DISABLE_REJECTED" s
            else let (s1, r) = set_user_totp_enabled (skip 1 e) u.id false s in
              on_result r (λ _. (s1, write_err 500 "errore disattivazione 2fa"))
                λ _. (
                  two_fa_events (skip 3 e) client c u "TWO_FA_DISABLED" "ok" "AUTH_2FA_DISABLED"
                      (set_user_totp_secret (skip 2 e) u.id "" s1).0,
                  write_json 200 (status_body "disabled" end),
                )
