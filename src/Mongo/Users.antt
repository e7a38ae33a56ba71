-- ===== src/Mongo/Users.antt =====
-- internal/store/mongo.go: the users.
use visto_easy.Prelude.{
  Bool, true, ◌||◌, String, List, [], ◌∷◌, Option, none, ◌==◌, if◌then◌else◌, on_some, trim_space,
  ltb,
}
use visto_easy.Prelude.Clock.{Time, Env}
use visto_easy.Model.{Utente, operatore, supervisore, admin}
use visto_easy.Store.State.{already_exists, forbidden_state}
use visto_easy.Store.Users.{email_key, registered, backoffice_user}
use visto_easy.Mongo.Driver.{
  MongoStore, Reply, done, refused, fault, on_answer, on_insert, find_by, list_by,
}

module _ {S : Type 0} (db : MongoStore S) where
  unfoldable pub get_user_by_email : String → S → Reply Utente
  get_user_by_email email = find_by db.users λ u. u.email == email_key email

  unfoldable pub get_user_by_id : String → S → Reply Utente
  get_user_by_id id = find_by db.users λ u. u.id == id

  -- An error of the read, a missing user included, lets the creation go on.
  unfoldable pub create_user : Env → Utente → S → S × Reply Utente
  create_user e u s =
      let u' = registered (e.uuid 0) (e.now 0) u in
      let (s', inserted) = db.users.insert_one u' s in
      let create = on_insert inserted (s', refused already_exists) (s', fault) λ _. (s', done u') in
      if email_key u.email == ""
      then (s, refused forbidden_state)
      else elim (get_user_by_email (email_key u.email) s) [
        | done _ ↦ (s, refused already_exists)
        | _ ↦ create
      ]

  unfoldable pub list_users : S → List Utente
  unfolding list_by
  list_users = list_by db.users (λ _. true) (λ u. u.creato_il) none

  -- `UpdateOne` by identifier, and `res.MatchedCount > 0`.
  unfoldable pub set_user : String → (Utente → Utente) → S → S × Reply Bool
  set_user id change s =
      let (s', updated) = db.users.update_one (λ u. u.id == id) change s in
      on_answer updated (s', fault) λ n. (s', done (ltb 0 n.matched))

  unfoldable pub set_user_verification_state : Env → String → Bool → Bool → S → S × Reply Bool
  set_user_verification_state e user attivo verificata =
      set_user (trim_space user)
        λ u. record u { attivo = attivo; email_verificata = verificata; aggiornato_il = e.now 0 }

  unfoldable pub set_user_totp_secret : Env → String → String → S → S × Reply Bool
  set_user_totp_secret e user secret =
      set_user (trim_space user)
        λ u. record u { totp_secret = trim_space secret; aggiornato_il = e.now 0 }

  unfoldable pub set_user_totp_enabled : Env → String → Bool → S → S × Reply Bool
  set_user_totp_enabled e user enabled =
      set_user (trim_space user) λ u. record u { totp_enabled = enabled; aggiornato_il = e.now 0 }

  unfoldable pub update_user_password : Env → String → String → S → S × Reply Bool
  update_user_password e user hash s =
      if trim_space user == "" || trim_space hash == ""
      then (s, refused forbidden_state)
      else set_user (trim_space user)
          (λ u. record u { password_hash = trim_space hash; aggiornato_il = e.now 0 }) s

  -- The loop of `seedBackofficeUsers`: a user who is there gets the password and nothing else.
  unfoldable pub seed_users : String → Time → List Utente → S → S × Reply (Unit {0})
  seed_users pwd now [] s = (s, done tt)
  seed_users pwd now (u ∷ us) s =
      let (s', seeded) =
        db.users.upsert_one (λ v. v.email == u.email)
          (λ v. record v { password_hash = pwd; aggiornato_il = now })
          (record u { password_hash = pwd; aggiornato_il = now }) s in
      let rest = seed_users pwd now us s' in on_answer seeded (s', fault) λ _. rest

  -- `hashed` is the result of bcrypt on the password of the environment.
  unfoldable pub seed_backoffice_users : Env → Option String → S → S × Reply (Unit {0})
  unfolding seed_users
  seed_backoffice_users e hashed s =
      let now = e.now 0 in
      on_some hashed (s, fault)
        λ pwd.
          seed_users pwd now
            (backoffice_user (e.uuid 0) "operatore@vistoeasy.local" "Mario" "Operatore" operatore
                now
              ∷ backoffice_user (e.uuid 1) "supervisore@vistoeasy.local" "Luca" "Supervisore"
                  supervisore now
              ∷ backoffice_user (e.uuid 2) "admin@vistoeasy.local" "Anna" "Admin" admin now
              ∷ [])
            s
