-- ===== src/Tests/Accounts.antt =====
-- Accounts, sessions and one-time tokens, at concrete inputs.
use visto_easy.Prelude.{
  ne_of_==, List, true, ◌≡◌, ◌≢◌, refl, String, [], ◌∷◌, none, some, String-discrete, trim_space,
  to_lower, byte_length,
}
use visto_easy.Prelude.Clock.{Env}
use visto_easy.Prelude.Dict.{insert, lookup}
use visto_easy.Model.{Utente, PasswordResetToken}
use visto_easy.Store.State.{MemoryStore, ok}
use visto_easy.Store.Users.{
  new_memory_store, seed_users, seed_backoffice_users, update_user_password,
  set_user_verification_state, registered, create_user, email_key, get_user_by_email,
  get_user_by_id,
}
use visto_easy.Store.Users.Index.{IsIndexed}
use visto_easy.Store.Users.Runs.{UserCall, user_call, run_users, AreNew, run_users-IsIndexed}
use visto_easy.Store.Sessions.{consume_password_reset_token, get_refresh_session_by_id}
use visto_easy.Http.Password.{validate_strong_password, has}
use visto_easy.Http.LoginLock.{is_locked}
use visto_easy.Http.Access.{is_backoffice_role}
use visto_easy.Http.Auth.{LoginRequest, credentials, second_factor, admit, handle_login}
use visto_easy.Http.Refresh.{rotate, refresh_with, handle_refresh}
use visto_easy.Http.Auth.Admission.{IsAdmitted, handle_login-IsAdmitted}
use visto_easy.Http.Refresh.Rotation.{IsKept, refresh-refresh}
use visto_easy.Http.Tokens.{parse}
use visto_easy.Http.Backoffice.{handle_bo_revoke_user_sessions}
use visto_easy.Http.Backoffice.Permissions.{revoke_user_sessions-refresh}
use visto_easy.Http.Recovery.{ResetRequest, one_time, handle_reset_password, handle_verify_email}
use visto_easy.Http.Registration.{RegisterRequest, handle_register}
use visto_easy.Http.Registration.Unverified.{IsAccepted, register-login, register-unhashed}
use visto_easy.Http.Recovery.Reset.{IsWellFormed, reset-reset}
use visto_easy.Tests.Data.{
  at, boss, client, manager, crypto, no_hash, session_claims, user, open_store, server, outside,
}

abbrev login_request : LoginRequest
login_request = record { email = " Anna@X.it"; password = "Segreta-123"; otp = "" }

login-done :
    (handle_login manager crypto
      (at 5 "a")
      client
      (some login_request)
      (server open_store)).1.status
    ≡ 200
unfolding handle_login to_lower trim_space String-discrete is_locked lookup credentials
    get_user_by_email second_factor is_backoffice_role admit
login-done = refl

handle_login-IsAdmitted_example : IsAdmitted crypto (at 5 "a") login_request (server open_store)
handle_login-IsAdmitted_example =
    handle_login-IsAdmitted manager crypto (at 5 "a") client login_request (server open_store)
      login-done

parsed : (e : Env) → parse manager (e.now 0) "t" ≡ some session_claims
unfolding parse
parsed e = refl

refresh-done : (handle_refresh manager (at 5 "a") client (some "t") open_store).1.status ≡ 200
unfolding handle_refresh parse String-discrete trim_space get_refresh_session_by_id lookup
    refresh_with rotate
refresh-done = refl

refresh-refresh_example :
    let s' = (handle_refresh manager (at 5 "a") client (some "t") open_store).0 in
    let o = handle_refresh manager (at 9 "b") client (some "t") s' in
    (o.1.status ≡ 401) × IsKept (trim_space "r") s' o.0
refresh-refresh_example =
    refresh-refresh manager (at 5 "a") (at 9 "b") client client "t" session_claims open_store
      (parsed (at 5 "a")) (parsed (at 9 "b")) refresh-done

revoke-done :
    (handle_bo_revoke_user_sessions (at 5 "a") client (some boss) "anna" open_store).1.status ≡ 200
unfolding handle_bo_revoke_user_sessions String-discrete trim_space get_user_by_id lookup
revoke-done = refl

anna-plain : trim_space "anna" ≡ "anna"
unfolding trim_space
anna-plain = refl

revoke_user_sessions-refresh_example :
    (refresh_with manager
      (at 9 "b")
      client
      session_claims
      (handle_bo_revoke_user_sessions (at 5 "a") client (some boss) "anna" open_store).0).1.status
    ≢ 200
revoke_user_sessions-refresh_example =
    revoke_user_sessions-refresh (at 5 "a") (at 9 "b") client client (some boss) "anna" open_store
      manager session_claims anna-plain refl revoke-done

abbrev reset_token : PasswordResetToken
reset_token = one_time "token" "password_reset" "anna" "anna@x.it" 100

abbrev reset_store : MemoryStore
reset_store = record open_store { password_reset_tokens = ("token", reset_token) ∷ [] }

abbrev used_token : PasswordResetToken
used_token = record reset_token { used_at = some 5; aggiornato_il = 5 }

abbrev reset_request : ResetRequest
reset_request = record { token = "token"; new_password = "Segreta-456" }

reset-IsWellFormed : IsWellFormed reset_request
unfolding trim_space String-discrete byte_length
reset-IsWellFormed = (refl, refl)

trimmed-done :
    (consume_password_reset_token (at 5 "a") (trim_space "token") reset_store).1 ≡ ok used_token
unfolding consume_password_reset_token lookup String-discrete trim_space
trimmed-done = refl

reset-reset_example :
    let s' = (handle_reset_password crypto (at 5 "a") client (some reset_request) reset_store).0 in
    ((handle_reset_password crypto (at 9 "b") client (some reset_request) s').1.status ≡ 401)
    × ((handle_verify_email (at 9 "b") (some "token") s').1.status ≡ 401)
reset-reset_example =
    reset-reset crypto (at 5 "a") (at 9 "b") client client reset_request reset_request reset_store
      used_token reset-IsWellFormed reset-IsWellFormed refl trimmed-done

abbrev register_request : RegisterRequest
register_request = record {
  email = "bert@x.it";
  password = "Segreta-123";
  nome = "Bert";
  cognome = "B";
}

bert-IsAccepted : IsAccepted outside register_request "bert@x.it" open_store
unfolding trim_space String-discrete lookup validate_strong_password to_lower byte_length has
bert-IsAccepted = record { given = refl; parsed = refl; named = refl; strong = refl; free = refl }

bert-key : email_key (to_lower (trim_space "Bert@x.it")) ≡ email_key "bert@x.it"
unfolding to_lower trim_space
bert-key = refl

register-login_example :
    (handle_login manager crypto
      (at 9 "b")
      client
      (some (record { email = "Bert@x.it"; password = "Segreta-123"; otp = "" }))
      (server
        (handle_register crypto
          (at 5 "a")
          client
          outside
          (some register_request)
          open_store).0)).1.status
    ≢ 200
register-login_example =
    register-login crypto (at 5 "a") client outside register_request "bert@x.it" open_store
      bert-IsAccepted manager (at 9 "b") client
      (record { email = "Bert@x.it"; password = "Segreta-123"; otp = "" })
      (server
        (handle_register crypto (at 5 "a") client outside (some register_request) open_store).0)
      bert-key refl

register-unhashed_example :
    (u : Utente) × (get_user_by_email "bert@x.it"
        (handle_register no_hash (at 5 "a") client outside (some register_request) open_store).0
      ≡ ok u)
    × (u.password_hash ≡ "")
    × ((password : String)
        → credentials no_hash "bert@x.it" password
            (handle_register no_hash (at 5 "a") client outside (some register_request) open_store).0
          ≡ none)
register-unhashed_example =
    register-unhashed no_hash (at 5 "a") client outside register_request "bert@x.it" open_store
      bert-IsAccepted refl

-- A user registers with the seeded store, and sets a password.
abbrev user_calls : List (Env × UserCall)
user_calls =
    (at 5 "d", UserCall.creates user)
    ∷ (at 6 "e", UserCall.sets_password "d" "hash")
    ∷ (at 7 "f", UserCall.verifies "d" true true)
    ∷ []

user_calls-AreNew : AreNew user_calls (new_memory_store (at 1 "s"))
unfolding new_memory_store seed_backoffice_users seed_users user_call create_user lookup insert
    to_lower trim_space update_user_password String-discrete
user_calls-AreNew = (refl, (refl, (refl, tt)))

abbrev last_user : Utente
last_user = record (registered "d" 5 user) { password_hash = "hash"; aggiornato_il = 7 }

last_user-found :
    get_user_by_email "Anna@X.it" (run_users user_calls (new_memory_store (at 1 "s")))
    ≡ ok last_user
unfolding new_memory_store seed_backoffice_users seed_users user_call create_user lookup insert
    to_lower trim_space update_user_password String-discrete run_users get_user_by_email
    set_user_verification_state
last_user-found = refl

differ01 : (at 1 "s").uuid 0 ≢ (at 1 "s").uuid 1
unfolding String-discrete
differ01 = ne_of_== _ _ refl

differ02 : (at 1 "s").uuid 0 ≢ (at 1 "s").uuid 2
unfolding String-discrete
differ02 = ne_of_== _ _ refl

differ12 : (at 1 "s").uuid 1 ≢ (at 1 "s").uuid 2
unfolding String-discrete
differ12 = ne_of_== _ _ refl

run_users-IsIndexed_example :
    let s = run_users user_calls (new_memory_store (at 1 "s")) in
    IsIndexed s
    × (last_user.email ≡ email_key "Anna@X.it")
    × (get_user_by_id last_user.id s ≡ ok last_user)
run_users-IsIndexed_example =
    run_users-IsIndexed (at 1 "s") user_calls "Anna@X.it" last_user differ01 differ02 differ12
      user_calls-AreNew last_user-found
