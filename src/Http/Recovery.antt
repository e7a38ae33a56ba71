-- ===== src/Http/Recovery.antt =====
-- internal/httpapi/server.go: the one-time tokens by which a user verifies an address or sets a new
-- password. The sending of a mail is a parameter, true where it fails; the texts of the mails and
-- the lines of the log are left out.
pub mod Reset
use visto_easy.Prelude.{
  ℕ, suc, ◌+◌, ◌*◌, Bool, true, false, not, ◌&&◌, ◌||◌, String, List, [], ◌∷◌, Option, none, some,
  ◌==◌, if◌then◌else◌, on_some, trim_space, to_lower, ltb, byte_length,
}
use visto_easy.Prelude.Int.{ℤ, pos, negsuc}
use visto_easy.Prelude.Clock.{Time, Env, skip, minute, format_rfc3339}
use visto_easy.Model.{
  Fields, str, end, field, richiedente, role_name, Utente, PasswordResetToken, SecurityEvent,
  AuditEvent,
}
use visto_easy.Store.State.{
  MemoryStore, Outcome, Result, ok, err, on_result, StoreError, already_exists,
}
use visto_easy.Store.Users.{
  zero_utente, create_user, get_user_by_email, get_user_by_id, update_user_password,
  set_user_verification_state,
}
use visto_easy.Store.Sessions.{create_password_reset_token, consume_password_reset_token}
use visto_easy.Http.Reply.{
  Client, Reply, Served, write_json, write_err, undecoded, security_event, audit_event,
  record_security_event, add_audit, status_body, user_body,
}
use visto_easy.Http.Access.{purpose_matches}
use visto_easy.Http.Password.{validate_strong_password}
use visto_easy.Http.Tokens.{Crypto}

-- What the outside gives these handlers: whether a mail to an address fails, the address in a
-- text (`mail.ParseAddress`), the random token (24 bytes in hexadecimal), none for an error, and
-- the setting `EMAIL_VERIFY_TOKEN_TTL_MINUTES`.
pub record Outside : Type 0 where
  pub mail_fails : String → Bool
  pub parse_address : String → Option String
  pub random_token : Option String
  pub verify_ttl : ℤ

-- A token for a user, as the handlers hand it to the store.
abbrev pub one_time : String → String → String → String → Time → PasswordResetToken
one_time token purpose user email end_ = record {
  token = token;
  purpose = purpose;
  user_id = user;
  email = email;
  expires_at = end_;
  used_at = none;
  creato_il = 0;
  aggiornato_il = 0;
}

-- The event for a mail that was not sent, if it was not.
abbrev pub mail_event :
    Env → Client → Outside → String → String → String → MemoryStore → MemoryStore
mail_event e client out email user outcome s =
    if out.mail_fails email
    then record_security_event e
        (record (security_event "EMAIL_DELIVERY_FAILED" outcome) {
          email = email;
          user_id = user;
          ip = client.ip;
        })
        s
    else s

-- The reply is the same whether the address is known or not.
unfoldable pub handle_forgot_password :
    Env → Client → Outside → Option String → MemoryStore → Served
handle_forgot_password e client out body s =
    let done : MemoryStore → Served = λ s'. (
      s',
      write_json 200 (
          status_body "accepted"
            (field "message" (str "se l'email esiste riceverai istruzioni") end)),
    ) in
    on_some body (s, undecoded)
      λ raw.
        let email = to_lower (trim_space raw) in
        if email == ""
        then done s
        else on_result (get_user_by_email email s) (λ _. done s)
            λ u. on_some out.random_token (done s) λ token.
              let end_ = e.now 0 + 30 * minute in
              let s1 =
                (create_password_reset_token (skip 1 e)
                  (one_time token "password_reset" u.id email end_) s).0 in
              let s2 = mail_event (skip 2 e) client out email u.id "password_reset" s1 in
              done (
                record_security_event (skip 3 e)
                  (record (security_event "PASSWORD_RESET_REQUESTED" "accepted") {
                    email = email;
                    user_id = u.id;
                    ip = client.ip;
                    metadata =
                        field "expires_at" (str (format_rfc3339 end_))
                          (field "reset_token" (str token) end);
                  })
                  s2)

pub record ResetRequest : Type 0 where
  pub token : String
  pub new_password : String

-- The events of a reset that goes through.
abbrev pub reset_events : Env → Client → PasswordResetToken → MemoryStore → Served
reset_events e client t s =
    let s1 =
      record_security_event e
        (record (security_event "PASSWORD_RESET_COMPLETED" "ok") {
          email = t.email;
          user_id = t.user_id;
          ip = client.ip;
        })
        s in
    (
      add_audit (skip 1 e)
          (record (audit_event "AUTH_PASSWORD_RESET" "user") {
            actor_id = t.user_id;
            actor_role = on_result (get_user_by_id t.user_id s1) (λ _. "") λ u. role_name u.ruolo;
            resource_id = t.user_id;
            ip = client.ip;
          })
          s1,
      write_json 200 (status_body "reset_completed" end),
    )

-- The reset once the token has been used.
unfoldable pub set_password :
    Crypto → Env → Client → String → PasswordResetToken → MemoryStore → Served
set_password crypto e client password t s =
    if not (purpose_matches t.purpose ("password_reset" ∷ "account_activation" ∷ []))
    then (s, write_err 401 "token non valido o scaduto")
    else on_some (crypto.generate_from_password (trim_space password))
        (s, write_err 500 "errore interno")
        λ hash.
          let (s1, r) = update_user_password e t.user_id hash s in
          on_result r (λ _. (s1, write_err 500 "errore interno"))
            λ found.
              if not found
              then (s1, write_err 500 "errore interno")
              else reset_events (skip 2 e) client t (
                  if t.purpose == "account_activation"
                  then (set_user_verification_state (skip 1 e) t.user_id true true s1).0
                  else s1)

unfoldable pub handle_reset_password :
    Crypto → Env → Client → Option ResetRequest → MemoryStore → Served
unfolding set_password
handle_reset_password crypto e client body s =
    on_some body (s, undecoded)
      λ req.
        if ltb (byte_length (trim_space req.new_password)) 8
        then (s, write_err 400 "password troppo corta")
        else if trim_space req.token == ""
        then (s, write_err 400 "token non valido")
        else let (s1, r) = consume_password_reset_token e (trim_space req.token) s in
          on_result r
            (λ _. (
              add_audit (skip 1 e)
                  (record (audit_event "AUTH_PASSWORD_RESET_REJECTED" "user") {
                    ip = client.ip;
                    details = field "reason" (str "invalid_or_expired_token") end;
                  })
                  s1,
              write_err 401 "token non valido o scaduto",
            ))
            λ t. set_password crypto (skip 1 e) client req.new_password t s1

unfoldable pub handle_verify_email : Env → Option String → MemoryStore → Served
handle_verify_email e body s =
    on_some body (s, undecoded)
      λ raw.
        if trim_space raw == ""
        then (s, write_err 400 "token non valido")
        else let (s1, r) = consume_password_reset_token e (trim_space raw) s in
          on_result r (λ _. (s1, write_err 401 "token non valido o scaduto"))
            λ t.
              if not (purpose_matches t.purpose ("email_verification" ∷ []))
              then (s1, write_err 401 "token non valido o scaduto")
              else let (s2, found) =
                  set_user_verification_state (skip 1 e) t.user_id true true s1 in
                on_result found (λ _. (s2, write_err 404 "utente non trovato"))
                  λ known. if not known then (s2, write_err 404 "utente non trovato") else (
                    add_audit (skip 2 e)
                        (record (audit_event "AUTH_EMAIL_VERIFIED" "user") {
                          actor_id = t.user_id;
                          resource_id = t.user_id;
                          details = field "email" (str t.email) end;
                        })
                        s2,
                    write_json 200 (status_body "verified" end),
                  )
