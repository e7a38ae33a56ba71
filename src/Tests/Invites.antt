-- ===== src/Tests/Invites.antt =====
-- The invitation of an operator, at concrete inputs.
use visto_easy.Prelude.{
  ◌+◌, ◌*◌, false, ◌≡◌, ◌≢◌, refl, String, some, arith, String-discrete, trim_space, to_lower,
  byte_length,
}
use visto_easy.Prelude.Clock.{Time, hour}
use visto_easy.Prelude.Dict.{lookup}
use visto_easy.Model.{Utente}
use visto_easy.Store.State.{empty_store}
use visto_easy.Store.Users.{registered, create_user}
use visto_easy.Store.Sessions.{create_password_reset_token}
use visto_easy.Http.Reply.{write_json, invited_body}
use visto_easy.Http.Password.{has}
use visto_easy.Http.LoginLock.{is_locked}
use visto_easy.Http.Auth.{LoginRequest, handle_login}
use visto_easy.Http.Recovery.{ResetRequest, handle_reset_password}
use visto_easy.Http.Recovery.Reset.{IsWellFormed}
use visto_easy.Http.Invites.{InviteRequest, invited, send_invite, handle_bo_invite_operatore}
use visto_easy.Http.Invites.Resets.{IsHashed}
use visto_easy.Http.Invites.Activation.{invite-login}
use visto_easy.Tests.Data.{at, boss, client, manager, crypto, server, outside}

abbrev request : InviteRequest
request = record { email = " Luca@x.it"; nome = "Luca"; cognome = "Neri" }

abbrev operator : Utente
operator = registered "u" 1 (invited "luca@x.it" "temporary" request)

abbrev deadline : Time
deadline = 2 + 72 * hour

invited-there :
    (handle_bo_invite_operatore crypto
      (at 1 "u")
      client
      outside
      (some "temporary")
      (some boss)
      (some request)
      empty_store).1
    ≡ write_json 201 (invited_body operator "token" deadline)
unfolding handle_bo_invite_operatore send_invite create_user create_password_reset_token lookup
    trim_space to_lower has String-discrete
invited-there = refl

abbrev first_password : ResetRequest
first_password = record { token = "token"; new_password = "Segreta-456" }

first_password-IsWellFormed : IsWellFormed first_password
unfolding trim_space String-discrete byte_length
first_password-IsWellFormed = (refl, refl)

first_password-IsHashed : IsHashed crypto "Segreta-456" "Segreta-456"
unfolding trim_space String-discrete
first_password-IsHashed = record { made = refl; plain = refl; given = refl; right = refl }

plain-u : trim_space "u" ≡ "u"
unfolding trim_space
plain-u = refl

plain-token : trim_space "token" ≡ "token"
unfolding trim_space
plain-token = refl

unlocked :
    (is_locked 20 21 (to_lower (trim_space " Luca@x.it")) (server empty_store).login_lt).1 ≡ false
unfolding is_locked lookup
unlocked = refl

invite-login_example :
    let sent =
      handle_bo_invite_operatore crypto
        (at 1 "u")
        client
        outside
        (some "temporary")
        (some boss)
        (some request)
        empty_store in
    let done' = handle_reset_password crypto (at 9 "f") client (some first_password) sent.0 in
    let entry : String → LoginRequest =
      λ password. record { email = " Luca@x.it"; password = password; otp = "" } in
    ((password : String)
      → (handle_login manager crypto
          (at 20 "g")
          client
          (some (entry password))
          (server sent.0)).1.status
        ≢ 200)
    × (done'.1.status ≡ 200)
    × ((handle_login manager crypto
          (at 20 "g")
          client
          (some (entry (trim_space "Segreta-456")))
          (server done'.0)).1.status
        ≡ 200)
invite-login_example =
    invite-login manager crypto (at 1 "u") (at 9 "f") (at 20 "g") client client outside
      (some "temporary") boss request operator deadline empty_store first_password "Segreta-456" ""
      (server empty_store) invited-there plain-u plain-token first_password-IsWellFormed
      (omega arith) first_password-IsHashed unlocked
