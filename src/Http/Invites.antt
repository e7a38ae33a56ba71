-- ===== src/Http/Invites.antt =====
-- internal/httpapi/server.go: the invitation of an operator. The link of the mail, which is in the
-- reply too, and the lines of the log are left out.
pub mod Sending
pub mod Resets
pub mod Activation
use visto_easy.Prelude.{
  ◌*◌, ◌+◌, Bool, false, not, ◌&&◌, ◌||◌, String, Option, none, some, ◌==◌, if◌then◌else◌, on_some,
  trim_space, to_lower, eqb,
}
use visto_easy.Prelude.Clock.{Env, skip, hour}
use visto_easy.Model.{str, end, field, operatore, Utente}
use visto_easy.Store.State.{MemoryStore, StoreError, already_exists, on_result}
use visto_easy.Store.Users.{zero_utente, create_user}
use visto_easy.Store.Sessions.{create_password_reset_token}
use visto_easy.Http.Reply.{
  Claims, Client, Reply, Served, write_json, write_err, undecoded, record_audit_event, invited_body,
}
use visto_easy.Http.Password.{has}
use visto_easy.Http.Tokens.{Crypto}
use visto_easy.Http.Recovery.{Outside, one_time, mail_event}

pub record InviteRequest : Type 0 where
  pub email : String
  pub nome : String
  pub cognome : String

-- The user that the handler hands to the store.
abbrev pub invited : String → String → InviteRequest → Utente
invited email hash req = record zero_utente {
  email = email;
  password_hash = hash;
  nome = trim_space req.nome;
  cognome = trim_space req.cognome;
  ruolo = operatore;
}

abbrev invite_error : StoreError → Reply
invite_error already_exists = write_err 409 "operatore gia esistente"
invite_error _ = write_err 500 "errore interno"

-- What follows the creation of the user.
unfoldable pub send_invite :
    Env → Client → Claims → Outside → String → Utente → MemoryStore → Served
send_invite e client c out email u s =
    on_some out.random_token (s, write_err 500 "errore interno")
      λ token.
        let end_ = e.now 0 + 72 * hour in
        let (s1, r) =
          create_password_reset_token (skip 1 e)
            (one_time token "account_activation" u.id email end_) s in
        on_result r (λ _. (s1, write_err 500 "errore interno"))
          λ _. (
            record_audit_event (skip 3 e) client (some c) "BO_OPERATOR_INVITED" "user" u.id
                (field "email" (str email) end)
                (mail_event (skip 2 e) client out email u.id "operator_invite" s1),
            write_json 201 (invited_body u token end_),
          )

-- The second text is the temporary password, 18 random bytes in hexadecimal, none for an error.
unfoldable pub handle_bo_invite_operatore :
    Crypto
    → Env
    → Client
    → Outside
    → Option String
    → Option Claims
    → Option InviteRequest
    → MemoryStore
    → Served
unfolding send_invite
handle_bo_invite_operatore crypto e client out temporary claims body s =
    on_some claims (s, write_err 401 "non autenticato")
      λ c.
        if not (c.role == "ADMIN") && not (c.role == "SUPERVISORE")
        then (s, write_err 403 "solo admin o supervisore")
        else on_some body (s, undecoded)
            λ req.
              let email = to_lower (trim_space req.email) in
              if email == "" || not (has (λ x. eqb x b'@') email)
              then (s, write_err 400 "email non valida")
              else if trim_space req.nome == "" || trim_space req.cognome == ""
              then (s, write_err 400 "nome e cognome obbligatori")
              else on_some temporary (s, write_err 500 "errore interno")
                  λ password.
                    on_some (crypto.generate_from_password password)
                      (s, write_err 500 "errore interno")
                      λ hash.
                        let (s1, r) = create_user e (invited email hash req) s in
                        on_result r (λ x. (s1, invite_error x))
                          λ u. send_invite (skip 1 e) client c out email u s1
