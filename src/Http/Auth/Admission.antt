-- ===== src/Http/Auth/Admission.antt =====
-- The login of internal/httpapi/server.go: who is let in.
use visto_easy.Prelude.{
  refl, ◌≡◌, ◌≢◌, ap, ◌∙◌, inl, inr, true, false, not, ◌||◌, ◌&&◌, String, some, arith, Bool-cases,
  Option-cases, ◌==◌, trim_space, to_lower,
}
use visto_easy.Prelude.Clock.{Env, skip}
use visto_easy.Model.{Utente}
use visto_easy.Store.State.{MemoryStore, ok, Result-cases}
use visto_easy.Store.Users.{get_user_by_email}
use visto_easy.Http.LoginLock.{is_locked, record_failure}
use visto_easy.Http.Reply.{Client}
use visto_easy.Http.Access.{is_backoffice_role}
use visto_easy.Http.Tokens.{TokenManager, Crypto, validate_totp}
use visto_easy.Http.Auth.{
  Server, LoginRequest, credentials, second_factor, reject, login, handle_login, admit,
}

-- A login for which every condition holds at the time: the account is not locked; a user with a
-- hash has the address, and the password is right; the user is active and verified; and a user of
-- the back office with a second factor has given a valid code.
pub record IsAdmitted (crypto : Crypto) (e : Env) (req : LoginRequest) (v : Server) : Type 0 where
  pub user : Utente
  pub unlocked :
      (is_locked (e.now 0) (e.now 1) (to_lower (trim_space req.email)) v.login_lt).1 ≡ false
  pub known : get_user_by_email (to_lower (trim_space req.email)) v.store ≡ ok user
  pub hashed : (user.password_hash == "") ≡ false
  pub right : crypto.compare_hash_and_password user.password_hash req.password ≡ true
  pub active : user.attivo ≡ true
  pub verified : user.email_verificata ≡ true
  pub coded :
      (is_backoffice_role user.ruolo
        && user.totp_enabled
        && not (validate_totp crypto (e.now 2) req.otp user.totp_secret))
      ≡ false

-- What `credentials` finds.
credentials-known :
    (crypto : Crypto) (email password : String) (s : MemoryStore) (u : Utente)
    → credentials crypto email password s ≡ some u
    → (get_user_by_email email s ≡ ok u)
      × ((u.password_hash == "") ≡ false)
      × (crypto.compare_hash_and_password u.password_hash password ≡ true)
unfolding credentials
credentials-known crypto email password s u found =
    elim (Result-cases (get_user_by_email email s)) [
      | inl (x, eq) ↦ absurd (ground (arith, rw eq at found))
      | inr (w, eq) ↦
          elim (Bool-cases (
            w.password_hash == ""
            || not (crypto.compare_hash_and_password w.password_hash password))) [
              | inl bad ↦ absurd (ground (arith, rw (eq, bad) at found))
              | inr good ↦
                  let same : some w ≡ some u = rw (eq, good) at found in
                  let w-u : w ≡ u = ground arith in
                  let good' : (u.password_hash == ""
                        || not (crypto.compare_hash_and_password u.password_hash password))
                      ≡ false =
                    rw w-u at good in
                  (eq ∙ ap ok w-u, ground arith, ground arith)
            ]
    ]

reject-status :
    (e : Env) (client : Client) (email : String) (v : Server)
    → (reject e client email v).1.status ≢ 200
unfolding reject
reject-status e client email v h =
    let r = record_failure (e.now 0) (e.now 1) email v.login_lt in
    elim (Bool-cases r.1) [
      | inl locked ↦ omega (arith, rw locked at h)
      | inr open_ ↦ omega (arith, rw open_ at h)
    ]

second_factor-status :
    (m : TokenManager) (crypto : Crypto) (e : Env) (client : Client) (email otp : String)
    (u : Utente) (v : Server)
    → (second_factor m crypto e client email otp u v).1.status ≡ 200
    → (u.attivo ≡ true)
      × (u.email_verificata ≡ true)
      × ((is_backoffice_role u.ruolo
            && u.totp_enabled
            && not (validate_totp crypto (e.now 0) otp u.totp_secret))
          ≡ false)
unfolding second_factor
second_factor-status m crypto e client email otp u v h =
    elim (Bool-cases (not u.attivo || not u.email_verificata)) [
      | inl shut ↦ absurd (omega (arith, rw shut at h))
      | inr open_ ↦
          elim (Bool-cases (
            is_backoffice_role u.ruolo
            && u.totp_enabled
            && not (validate_totp crypto (e.now 0) otp u.totp_secret))) [
              | inl wrong ↦ absurd (omega (arith, rw (open_, wrong) at h))
              | inr right ↦ (ground arith, ground arith, right)
            ]
    ]

-- Nobody is let in without all of it: when handleLogin replies 200 to a request, every condition
-- of `IsAdmitted` holds: the account is not locked then, a user with a hash has the address and
-- the password is right, the user is active and verified, and a user of the back office with a
-- second factor has given a valid code.
pub handle_login-IsAdmitted :
    (m : TokenManager) (crypto : Crypto) (e : Env) (client : Client) (req : LoginRequest)
    (v : Server)
    → (handle_login m crypto e client (some req) v).1.status ≡ 200
    → IsAdmitted crypto e req v
unfolding handle_login login
handle_login-IsAdmitted m crypto e client req v h =
    let email = to_lower (trim_space req.email) in
    let l = is_locked (e.now 0) (e.now 1) email v.login_lt in
    let v1 : Server = record v { login_lt = l.0 } in
    elim (Bool-cases (email == "")) [
      | inl blank ↦ absurd (omega (arith, rw blank at h))
      | inr named ↦ elim (Bool-cases l.1) [
        | inl locked ↦ absurd (omega (arith, rw (named, locked) at h))
        | inr unlocked ↦ elim (Option-cases (credentials crypto email req.password v.store)) [
          | inl absent ↦
              absurd (reject-status (skip 2 e) client email v1 (rw (named, unlocked, absent) at h))
          | inr (u, found) ↦
              let (known, hashed, right) =
                credentials-known crypto email req.password v.store u found in
              let (active, verified, coded) =
                second_factor-status m crypto (skip 2 e) client email req.otp u v1
                  (rw (named, unlocked, found) at h) in
              record {
                user = u;
                unlocked = unlocked;
                known = known;
                hashed = hashed;
                right = right;
                active = active;
                verified = verified;
                coded = coded;
              }
        ]
      ]
    ]

-- Who meets every condition is let in: when all of `IsAdmitted` holds and the address is not
-- empty, handleLogin replies 200.
pub IsAdmitted-handle_login :
    (m : TokenManager) (crypto : Crypto) (e : Env) (client : Client) (req : LoginRequest)
    (v : Server)
    → (to_lower (trim_space req.email) == "") ≡ false
    → IsAdmitted crypto e req v
    → (handle_login m crypto e client (some req) v).1.status ≡ 200
unfolding handle_login login credentials second_factor admit
IsAdmitted-handle_login m crypto e client req v named a =
    let open_ : (not a.user.attivo || not a.user.email_verificata) ≡ false =
      rw (a.active, a.verified) refl in
    rw (named, a.unlocked, a.known, a.hashed, a.right, open_, a.coded) refl
