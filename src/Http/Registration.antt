-- ===== src/Http/Registration.antt =====
-- internal/httpapi/server.go: the registration of an applicant.
pub mod Unverified
use visto_easy.Prelude.{
  ℕ, suc, ◌+◌, ◌*◌, Bool, true, false, not, ◌&&◌, ◌||◌, String, List, [], ◌∷◌, Option, none, some,
  ◌==◌, if◌then◌else◌, on_some, trim_space, to_lower, ltb, byte_length,
}
use visto_easy.Prelude.Int.{ℤ, pos, negsuc}
use visto_easy.Prelude.Clock.{after_minutes, Time, Env, skip, minute, format_rfc3339}
use visto_easy.Model.{
  Fields, str, end, field, richiedente, role_name, Utente, PasswordResetToken, SecurityEvent,
  AuditEvent,
}
use visto_easy.Store.State.{
  MemoryStore, Outcome, Result, ok, err, on_result, StoreError, already_exists,
}
use visto_easy.Store.Users.{
  zero_utente, create_user, get_user_by_email, get_user_by_id, update_user_password,
  set_user_verification_state,
}
use visto_easy.Store.Sessions.{create_password_reset_token, consume_password_reset_token}
use visto_easy.Http.Reply.{
  Client, Reply, Served, write_json, write_err, undecoded, security_event, audit_event,
  record_security_event, add_audit, status_body, user_body,
}
use visto_easy.Http.Access.{purpose_matches}
use visto_easy.Http.Password.{validate_strong_password}
use visto_easy.Http.Tokens.{Crypto}
use visto_easy.Http.Recovery.{Outside, one_time, mail_event}

pub record RegisterRequest : Type 0 where
  pub email : String
  pub password : String
  pub nome : String
  pub cognome : String

-- `if verifyTTLMinutes <= 0 { verifyTTLMinutes = 30 }`
abbrev pub ttl_minutes : ℤ → ℕ
ttl_minutes (pos (suc n)) = suc n
ttl_minutes _ = 30

-- The user that handleRegister hands to the store. An error of bcrypt is dropped, and leaves the
-- empty text in place of the hash.
abbrev pub newcomer : Crypto → String → RegisterRequest → Utente
newcomer crypto address req = record zero_utente {
  email = address;
  password_hash = on_some (crypto.generate_from_password req.password) "" λ h. h;
  nome = req.nome;
  cognome = req.cognome;
  ruolo = richiedente;
}

-- What follows the creation of the user.
unfoldable pub send_verification : Env → Client → Outside → Utente → MemoryStore → Served
send_verification e client out u s =
    on_some out.random_token (s, write_err 500 "errore interno")
      λ token.
        let end_ = after_minutes (e.now 0) (ttl_minutes out.verify_ttl) in
        let (s1, r) =
          create_password_reset_token (skip 1 e)
            (one_time token "email_verification" u.id u.email end_) s in
        on_result r (λ _. (s1, write_err 500 "errore interno"))
          λ _. (
            mail_event (skip 2 e) client out u.email u.id "registration_verification" s1,
            write_json 201 (user_body u end_),
          )

abbrev register_error : StoreError → Reply
register_error already_exists = write_err 409 "utente già esistente"
register_error _ = write_err 500 "errore interno"

unfoldable pub handle_register :
    Crypto → Env → Client → Outside → Option RegisterRequest → MemoryStore → Served
unfolding send_verification
handle_register crypto e client out body s =
    on_some body (s, undecoded)
      λ req.
        if trim_space req.email == ""
        then (s, write_err 400 "email non valida")
        else on_some (out.parse_address (trim_space req.email))
            (s, write_err 400 "email non valida")
            λ address.
              if trim_space address == ""
              then (s, write_err 400 "email non valida")
              else on_some (validate_strong_password req.password)
                  (let (s1, r) = create_user e (newcomer crypto address req) s in
                    on_result r (λ x. (s1, register_error x))
                      λ u. send_verification (skip 1 e) client out u s1)
                  λ msg. (s, write_err 400 msg)
