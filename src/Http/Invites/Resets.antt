-- ===== src/Http/Invites/Resets.antt =====
-- internal/httpapi/server.go: a new password that activates an account.
use visto_easy.Prelude.{
  ==_refl, String-discrete, [], ◌∷◌, ◌≡◌, refl, ap, ◌∙◌, true, false, ◌||◌, String, some, ◌==◌,
  trim_space, to_lower,
}
use visto_easy.Prelude.Clock.{Time, Env, skip, after}
use visto_easy.Prelude.Dict.{lookup, lookup-insert_self}
use visto_easy.Model.{Utente, PasswordResetToken}
use visto_easy.Store.State.{MemoryStore, ok}
use visto_easy.Store.Users.{put_user, update_user_password, set_user_verification_state}
use visto_easy.Store.Sessions.{put_token, is_used, use_token}
use visto_easy.Store.Sessions.OneTime.{consume_live}
use visto_easy.Http.Reply.{security_event, record_security_event, add_audit, Client}
use visto_easy.Http.Tokens.{Crypto}
use visto_easy.Http.Access.{purpose_matches}
use visto_easy.Http.Recovery.{ResetRequest, set_password, reset_events, handle_reset_password}
use visto_easy.Http.Recovery.Reset.{IsWellFormed}
use visto_easy.Http.Registration.Unverified.{SameUsers, record-SameUsers}
use visto_easy.Http.Invites.Sending.{audit-Same}

-- A password that bcrypt takes: its hash is not empty, has no spaces around it, and matches.
pub record IsHashed (crypto : Crypto) (password hash : String) : Type 0 where
  pub made : crypto.generate_from_password (trim_space password) ≡ some hash
  pub plain : trim_space hash ≡ hash
  pub given : (hash == "") ≡ false
  pub right : crypto.compare_hash_and_password hash (trim_space password) ≡ true

reset-for_activation :
    purpose_matches "account_activation" ("password_reset" ∷ "account_activation" ∷ []) ≡ true
unfolding purpose_matches String-discrete to_lower trim_space
reset-for_activation = refl

-- The user with a new password, and after an activation.
abbrev pub secured : Time → String → Utente → Utente
secured now hash v = record v { password_hash = hash; aggiornato_il = now }

abbrev pub activated : Time → Utente → Utente
activated now v = record v { attivo = true; email_verificata = true; aggiornato_il = now }

module _ (f : Env) (user : String) (s : MemoryStore) (v : Utente) (plain : trim_space user ≡ user)
    (at : lookup user s.users ≡ some v) where
  password-set :
      (hash : String)
      → (user == "") ≡ false
      → trim_space hash ≡ hash
      → (hash == "") ≡ false
      → update_user_password f user hash s ≡ (put_user user (secured (f.now 0) hash v) s, ok true)
  unfolding update_user_password
  password-set hash present trimmed given = rw (plain, trimmed, present, given, at) refl

  state-set :
      set_user_verification_state f user true true s
      ≡ (put_user user (activated (f.now 0) v) s, ok true)
  unfolding set_user_verification_state
  state-set = rw (plain, at) refl

reset_events-Same :
    (e : Env) (client : Client) (t : PasswordResetToken) (s : MemoryStore)
    → SameUsers s (reset_events e client t s).0
unfolding add_audit
reset_events-Same e client t s =
    let evt = record (security_event "PASSWORD_RESET_COMPLETED" "ok") {
      email = t.email;
      user_id = t.user_id;
      ip = client.ip;
    } in
    let (a, b) = record-SameUsers e evt s in
    let ((c, d), _) = audit-Same (skip 1 e) _ (record_security_event e evt s) in (c ∙ a, d ∙ b)

set_password-activates :
    (crypto : Crypto) (f : Env) (client : Client) (password hash : String) (t : PasswordResetToken)
    (s : MemoryStore) (v : Utente)
    → t.purpose ≡ "account_activation"
    → trim_space t.user_id ≡ t.user_id
    → (t.user_id == "") ≡ false
    → lookup t.user_id s.users ≡ some v
    → IsHashed crypto password hash
    → let o = set_password crypto f client password t s in
      (o.1.status ≡ 200)
      × (lookup t.user_id o.0.users ≡ some (activated (f.now 1) (secured (f.now 0) hash v)))
      × (o.0.by_email ≡ s.by_email)
unfolding set_password
set_password-activates crypto f client password hash t s v purpose plain present at h =
    let w = secured (f.now 0) hash v in
    let s1 = put_user t.user_id w s in
    let at1 : lookup t.user_id s1.users ≡ some w = lookup-insert_self t.user_id w s.users in
    let s2 = put_user t.user_id (activated (f.now 1) w) s1 in
    let kept = reset_events-Same (skip 2 f) client t s2 in
    rw
      (
        purpose,
        reset-for_activation,
        h.made,
        password-set f t.user_id s v plain at hash present h.plain h.given,
        ==_refl "account_activation",
        state-set (skip 1 f) t.user_id s1 w plain at1,
      )
      (
        refl,
        ap (lookup t.user_id) kept.0
            ∙ lookup-insert_self t.user_id (activated (f.now 1) w) s1.users,
        kept.1,
      )

pub reset-activates :
    (crypto : Crypto) (f : Env) (client : Client) (req : ResetRequest) (hash : String)
    (t : PasswordResetToken) (s : MemoryStore) (v : Utente)
    → IsWellFormed req
    → trim_space req.token ≡ req.token
    → lookup req.token s.password_reset_tokens ≡ some t
    → (is_used t || after (f.now 0) t.expires_at) ≡ false
    → t.purpose ≡ "account_activation"
    → trim_space t.user_id ≡ t.user_id
    → (t.user_id == "") ≡ false
    → lookup t.user_id s.users ≡ some v
    → IsHashed crypto req.new_password hash
    → let o = handle_reset_password crypto f client (some req) s in
      (o.1.status ≡ 200)
      × (lookup t.user_id o.0.users ≡ some (activated (f.now 2) (secured (f.now 1) hash v)))
      × (o.0.by_email ≡ s.by_email)
unfolding handle_reset_password
reset-activates crypto f client req hash t s v (long, named) trimmed found live purpose plain
      present at h =
    let found' : lookup (trim_space req.token) s.password_reset_tokens ≡ some t =
      rw trimmed found in
    let named' : (req.token == "") ≡ false = rw trimmed at named in
    rw (long, trimmed, named')
      (rw (consume_live f req.token s t found' live) (
        rw trimmed (
          set_password-activates crypto (skip 1 f) client req.new_password hash
            (use_token (f.now 0) t) (put_token req.token (use_token (f.now 0) t) s) v purpose plain
            present at h)))
