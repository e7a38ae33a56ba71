-- ===== src/Http/Registration/Unverified.antt =====
-- The registration of internal/httpapi/server.go, followed by a login.
use visto_easy.Prelude.{
  ==_refl, ◌≡◌, ◌≢◌, refl, sym, ap, ◌∙◌, inl, inr, Bool, true, false, ◌||◌, String, none, some,
  arith, Bool-cases, ◌==◌, trim_space, to_lower, if-cases, on_some-cases,
}
use visto_easy.Prelude.Clock.{after_minutes, Env, skip}
use visto_easy.Prelude.Dict.{lookup, lookup-insert_self}
use visto_easy.Model.{Utente, PasswordResetToken, SecurityEvent}
use visto_easy.Store.State.{MemoryStore, Outcome, Result, ok, err, on_result-cases}
use visto_easy.Store.Events.{add_security_event}
use visto_easy.Store.Users.{email_key, registered, add_user, create_user, get_user_by_email}
use visto_easy.Store.Sessions.{create_password_reset_token}
use visto_easy.Http.Reply.{Client, Served, record_security_event}
use visto_easy.Http.Password.{validate_strong_password}
use visto_easy.Http.Tokens.{TokenManager, Crypto}
use visto_easy.Http.Auth.{Server, LoginRequest, credentials, handle_login}
use visto_easy.Http.Auth.Admission.{handle_login-IsAdmitted}
use visto_easy.Http.Recovery.{Outside, one_time}
use visto_easy.Http.Registration.{
  RegisterRequest, newcomer, ttl_minutes, send_verification, handle_register,
}

-- The users and their index are the same in two stores.
abbrev pub SameUsers : MemoryStore → MemoryStore → Type 0
SameUsers s s' = (s'.users ≡ s.users) × (s'.by_email ≡ s.by_email)

pub record-SameUsers :
    (e : Env) (evt : SecurityEvent) (s : MemoryStore) → SameUsers s (record_security_event e evt s)
unfolding record_security_event add_security_event
record-SameUsers e evt s = elim (Bool-cases (trim_space evt.type == "")) [
  | inl h ↦ rw (h, record_security_event) (refl, refl)
  | inr h ↦ rw (h, record_security_event) (refl, refl)
]

token-SameUsers :
    (e : Env) (t : PasswordResetToken) (s : MemoryStore)
    → SameUsers s (create_password_reset_token e t s).0
unfolding create_password_reset_token
token-SameUsers e t s =
    if-cases (λ (o : Outcome PasswordResetToken). SameUsers s o.0)
      (trim_space t.token == "" || trim_space t.user_id == "") (λ _. (refl, refl)) λ _. (refl, refl)

send_verification-SameUsers :
    (e : Env) (client : Client) (out : Outside) (u : Utente) (s : MemoryStore)
    → SameUsers s (send_verification e client out u s).0
unfolding send_verification
send_verification-SameUsers e client out u s =
    on_some-cases Same out.random_token (λ _. (refl, refl))
      λ token _.
        let end_ = after_minutes (e.now 0) (ttl_minutes out.verify_ttl) in
        let t = one_time token "email_verification" u.id u.email end_ in
        let s1 = (create_password_reset_token (skip 1 e) t s).0 in
        let kept = token-SameUsers (skip 1 e) t s in
        on_result-cases Same (create_password_reset_token (skip 1 e) t s).1 (λ _ _. kept)
          λ _ _.
            if-cases (λ (s2 : MemoryStore). SameUsers s s2) (out.mail_fails u.email)
              (λ _.
                let more = record-SameUsers (skip 2 e) _ s1 in (more.0 ∙ kept.0, more.1 ∙ kept.1))
              λ _. kept
  where
    Same : Served → Type 0
    Same o = SameUsers s o.0

-- The request for a registration passes every check of the code, for an address that is free.
pub record IsAccepted (out : Outside) (req : RegisterRequest) (address : String) (s : MemoryStore)
    : Type 0 where
  pub given : (trim_space req.email == "") ≡ false
  pub parsed : out.parse_address (trim_space req.email) ≡ some address
  pub named : (trim_space address == "") ≡ false
  pub strong : validate_strong_password req.password ≡ none
  pub free : lookup (email_key address) s.by_email ≡ none

abbrev pub attivo_of : Result Utente → Bool
attivo_of (ok u) = u.attivo
attivo_of (err x) = false

module _ (crypto : Crypto) (e : Env) (client : Client) (out : Outside) (req : RegisterRequest)
    (address : String) (s : MemoryStore) (accepted : IsAccepted out req address s) where
  registered-user :
      (email : String)
      → email_key email ≡ email_key address
      → get_user_by_email email (handle_register crypto e client out (some req) s).0
        ≡ ok (registered (e.uuid 0) (e.now 0) (newcomer crypto address req))
  unfolding handle_register create_user get_user_by_email
  registered-user email same =
      let u = registered (e.uuid 0) (e.now 0) (newcomer crypto address req) in
      let s1 = add_user (email_key address) u s in
      let kept = send_verification-SameUsers (skip 1 e) client out u s1 in
      rw (accepted.given, accepted.parsed, accepted.named, accepted.strong, accepted.free)
        (rw
          (
            kept.0,
            kept.1,
            same,
            lookup-insert_self (email_key address) u.id s.by_email,
            lookup-insert_self u.id u s.users,
          )
          refl)

  -- A new account cannot be used before its address is verified: after a registration that passes
  -- the checks, whatever becomes of the mail, a login with any spelling of the address, any
  -- password and any code does not reply 200, in a server that has the store that it left.
  pub register-login :
      (m : TokenManager) (again : Env) (other : Client) (next : LoginRequest) (v : Server)
      → email_key (to_lower (trim_space next.email)) ≡ email_key address
      → v.store ≡ (handle_register crypto e client out (some req) s).0
      → (handle_login m crypto again other (some next) v).1.status ≢ 200
  register-login m again other next v same left done =
      let admitted = handle_login-IsAdmitted m crypto again other next v done in
      let u = registered (e.uuid 0) (e.now 0) (newcomer crypto address req) in
      let known : ok admitted.user ≡ ok u =
        sym (rw left at admitted.known) ∙ registered-user _ same in
      let active : true ≡ false = sym admitted.active ∙ ap attivo_of known in ground arith

  -- A password that bcrypt refuses makes an account that nobody can use: after a registration
  -- that passes the checks with a password of which no hash can be made, the account is there,
  -- its hash is the empty text, and no password at all is accepted for it.
  pub register-unhashed :
      crypto.generate_from_password req.password ≡ none
      → (u : Utente) × (get_user_by_email address
            (handle_register crypto e client out (some req) s).0
          ≡ ok u)
        × (u.password_hash ≡ "")
        × ((password : String)
            → credentials crypto address password
                (handle_register crypto e client out (some req) s).0
              ≡ none)
  unfolding credentials
  register-unhashed none_ =
      let u = registered (e.uuid 0) (e.now 0) (newcomer crypto address req) in
      let found = registered-user address refl in
      let blank : u.password_hash ≡ "" = rw none_ refl in
      (
        u,
        found,
        blank,
        λ password.
            rw found (let b : (u.password_hash == "") ≡ true = rw blank (==_refl "") in rw b refl),
      )
