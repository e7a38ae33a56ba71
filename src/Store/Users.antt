-- ===== src/Store/Users.antt =====
-- internal/store/memory.go: the users and the index of their e-mail addresses.
pub mod Index
pub mod Runs
use visto_easy.Prelude.{
  Bool, true, false, ◌||◌, String, List, [], ◌∷◌, Option, none, some, ◌==◌, if◌then◌else◌, on_some,
  trim_space, to_lower,
}
use visto_easy.Prelude.Clock.{Time, Env}
use visto_easy.Prelude.Dict.{lookup, insert, values}
use visto_easy.Model.{
  Role, richiedente, operatore, supervisore, admin, other_role, role_name, Utente,
}
use visto_easy.Store.State.{
  MemoryStore, Outcome, Result, ok, err, not_found, already_exists, forbidden_state, empty_store,
}
use visto_easy.Store.Order.{latest_first}

-- `model.Utente{}`
abbrev pub zero_utente : Utente
zero_utente = record {
  id = "";
  email = "";
  password_hash = "";
  totp_secret = "";
  totp_enabled = false;
  nome = "";
  cognome = "";
  ruolo = other_role "";
  telefono = "";
  email_verificata = false;
  attivo = false;
  creato_il = 0;
  aggiornato_il = 0;
}

-- `s.users[id] = u`
abbrev pub put_user : String → Utente → MemoryStore → MemoryStore
put_user id u s = record s { users = insert id u s.users }

-- `s.users[u.ID] = u; s.byEmail[key] = u.ID`
abbrev pub add_user : String → Utente → MemoryStore → MemoryStore
add_user key u s = record s { users = insert u.id u s.users; by_email = insert key u.id s.by_email }

abbrev pub backoffice_user : String → String → String → String → Role → Time → Utente
backoffice_user uuid email nome cognome ruolo now = record zero_utente {
  id = uuid;
  email = email;
  nome = nome;
  cognome = cognome;
  ruolo = ruolo;
  attivo = true;
  email_verificata = true;
  creato_il = now;
  aggiornato_il = now;
}

unfoldable pub seed_users : List Utente → MemoryStore → MemoryStore
seed_users [] s = s
seed_users (u ∷ us) s = seed_users us (add_user (to_lower u.email) u s)

unfoldable pub seed_backoffice_users : Env → MemoryStore → MemoryStore
unfolding seed_users
seed_backoffice_users e s =
    let now = e.now 0 in
    seed_users
      (backoffice_user (e.uuid 0) "operatore@vistoeasy.local" "Mario" "Operatore" operatore now
        ∷ backoffice_user (e.uuid 1) "supervisore@vistoeasy.local" "Luca" "Supervisore" supervisore
            now
        ∷ backoffice_user (e.uuid 2) "admin@vistoeasy.local" "Anna" "Admin" admin now
        ∷ [])
      s

unfoldable pub new_memory_store : Env → MemoryStore
unfolding seed_backoffice_users
new_memory_store e = seed_backoffice_users e empty_store

-- The key of an address in the index.
abbrev pub email_key : String → String
email_key email = to_lower (trim_space email)

-- The user that `CreateUser` stores.
abbrev pub registered : String → Time → Utente → Utente
registered uuid now u = record u {
  id = uuid;
  email = email_key u.email;
  ruolo = if trim_space (role_name u.ruolo) == "" then richiedente else u.ruolo;
  creato_il = now;
  aggiornato_il = now;
}

unfoldable pub create_user : Env → Utente → MemoryStore → Outcome Utente
create_user e u s =
    on_some (lookup (email_key u.email) s.by_email)
      (let u' = registered (e.uuid 0) (e.now 0) u in (add_user (email_key u.email) u' s, ok u'))
      λ _. (s, err already_exists)

unfoldable pub list_users : MemoryStore → List Utente
list_users s = latest_first (λ (u : Utente). u.creato_il) (values s.users)

-- The second read of a map gives the zero value where the key is missing.
unfoldable pub get_user_by_email : String → MemoryStore → Result Utente
get_user_by_email email s =
    on_some (lookup (email_key email) s.by_email) (err not_found)
      λ id. ok (on_some (lookup id s.users) zero_utente λ u. u)

unfoldable pub get_user_by_id : String → MemoryStore → Result Utente
get_user_by_id id s = on_some (lookup id s.users) (err not_found) λ u. ok u

-- What the setters share: a change to the user under the trimmed key, if there is one.
abbrev pub set_user : String → (Utente → Utente) → MemoryStore → Outcome Bool
set_user user change s =
    on_some (lookup (trim_space user) s.users) (s, ok false)
      λ u. (put_user (trim_space user) (change u) s, ok true)

unfoldable pub set_user_verification_state : Env → String → Bool → Bool → MemoryStore → Outcome Bool
set_user_verification_state e user attivo verificata =
    set_user user
      λ u. record u { attivo = attivo; email_verificata = verificata; aggiornato_il = e.now 0 }

unfoldable pub set_user_totp_secret : Env → String → String → MemoryStore → Outcome Bool
set_user_totp_secret e user secret =
    set_user user λ u. record u { totp_secret = trim_space secret; aggiornato_il = e.now 0 }

unfoldable pub set_user_totp_enabled : Env → String → Bool → MemoryStore → Outcome Bool
set_user_totp_enabled e user enabled =
    set_user user λ u. record u { totp_enabled = enabled; aggiornato_il = e.now 0 }

unfoldable pub update_user_password : Env → String → String → MemoryStore → Outcome Bool
update_user_password e user hash s =
    if trim_space user == "" || trim_space hash == ""
    then (s, err forbidden_state)
    else set_user user (λ u. record u { password_hash = trim_space hash; aggiornato_il = e.now 0 })
        s
