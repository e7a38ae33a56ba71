-- ===== src/Http/Invites/Activation.antt =====
-- internal/httpapi/server.go: an invited operator, from the invitation to the first login.
use visto_easy.Prelude.{
  Bool, Option, ◌≡◌, ◌≢◌, refl, sym, ap, ◌∙◌, true, false, ◌&&◌, ◌+◌, ◌*◌, ◌≤◌, String, some, arith,
  ◌==◌, trim_space, to_lower,
}
use visto_easy.Prelude.Clock.{Time, Env, hour, after}
use visto_easy.Prelude.Dict.{lookup, lookup-insert_self}
use visto_easy.Model.{Utente}
use visto_easy.Store.State.{MemoryStore, ok}
use visto_easy.Store.Users.{email_key, get_user_by_email}
use visto_easy.Store.Sessions.{stored_token}
use visto_easy.Http.Reply.{Claims, Client, write_json, invited_body}
use visto_easy.Http.Tokens.{TokenManager, Crypto}
use visto_easy.Http.LoginLock.{is_locked}
use visto_easy.Http.Auth.{Server, LoginRequest, handle_login}
use visto_easy.Http.Auth.Admission.{handle_login-IsAdmitted, IsAdmitted-handle_login}
use visto_easy.Http.Recovery.{Outside, ResetRequest, handle_reset_password}
use visto_easy.Http.Recovery.Reset.{IsWellFormed}
use visto_easy.Http.Registration.Unverified.{attivo_of}
use visto_easy.Http.Invites.{InviteRequest, handle_bo_invite_operatore}
use visto_easy.Http.Invites.Sending.{new_operator, kept_token, invite_lem}
use visto_easy.Http.Invites.Resets.{IsHashed, secured, activated, reset-activates}

-- A user that the index leads to is found by the address.
by_email-known :
    (email id : String) (u : Utente) (s : MemoryStore)
    → lookup (email_key email) s.by_email ≡ some id
    → lookup id s.users ≡ some u
    → get_user_by_email email s ≡ ok u
unfolding get_user_by_email
by_email-known email id u s key at = rw (key, at) refl

not-after : (now t : Time) → now ≤ t → after now t ≡ false
not-after now t h = ground arith

no-code : (a b : Bool) → (a && false && b) ≡ false
no-code a b = ground arith

-- The invited operator gets in. When handleBOInviteOperatore has replied 201 with a user and a
-- token, and the new identifier and the token have no spaces around them, then no login with the
-- address, whatever the password and the code, replies 200 before the token is used; a request
-- for a new password with the token, which is not blank, at most 72 hours after it was made, with a
-- password that without the spaces around it has at least 8 bytes and of which, so trimmed, bcrypt
-- makes a hash that matches it, is not empty and has no spaces around it, replies 200; and after
-- that a login with the address and the trimmed password replies 200, in a server in which the
-- address is not locked.
pub invite-login :
    (m : TokenManager) (crypto : Crypto) (e f g : Env) (client other : Client) (out : Outside)
    (temporary : Option String) (c : Claims) (req : InviteRequest) (u : Utente) (end_ : Time)
    (s : MemoryStore) (reset : ResetRequest) (hash otp : String) (v : Server)
    → let sent = handle_bo_invite_operatore crypto e client out temporary (some c) (some req) s in
      let done' = handle_reset_password crypto f other (some reset) sent.0 in
      let entry : String → LoginRequest =
        λ password. record { email = req.email; password = password; otp = otp } in
      sent.1 ≡ write_json 201 (invited_body u reset.token end_)
      → trim_space (e.uuid 0) ≡ e.uuid 0
      → trim_space reset.token ≡ reset.token
      → IsWellFormed reset
      → f.now 0 ≤ e.now 1 + 72 * hour
      → IsHashed crypto reset.new_password hash
      → (is_locked (g.now 0) (g.now 1) (to_lower (trim_space req.email)) v.login_lt).1 ≡ false
      → ((password : String)
          → (handle_login m crypto g client
              (some (entry password))
              (record v { store = sent.0 })).1.status
            ≢ 200)
        × (done'.1.status ≡ 200)
        × ((handle_login m crypto g client
              (some (entry (trim_space reset.new_password)))
              (record v { store = done'.0 })).1.status
            ≡ 200)
invite-login m crypto e f g client other out temporary c req u end_ s reset hash otp v h uuid_plain
      token_plain well in_time hashed unlocked =
    let i = invite_lem crypto e client out temporary c req u reset.token end_ s h in
    let sent = (handle_bo_invite_operatore crypto e client out temporary (some c) (some req) s).0 in
    let email = to_lower (trim_space req.email) in
    let n = new_operator e req i.hash in
    let key : lookup (email_key email) sent.by_email ≡ some (e.uuid 0) =
      ap (lookup (email_key email)) i.by_email
      ∙ lookup-insert_self (email_key email) (e.uuid 0) s.by_email in
    let at : lookup (e.uuid 0) sent.users ≡ some n =
      ap (lookup (e.uuid 0)) i.users ∙ lookup-insert_self (e.uuid 0) n s.users in
    let present : (e.uuid 0 == "") ≡ false = rw uuid_plain at i.present in
    let (done', stands, index) =
      reset-activates crypto f other reset hash
        (stored_token reset.token (e.now 2) (kept_token e req reset.token)) sent n well token_plain
        (rw token_plain at i.kept) (not-after _ _ in_time) refl uuid_plain present at hashed in
    let found =
      by_email-known email (e.uuid 0) _ _ (ap (lookup (email_key email)) index ∙ key) stands in
    (
      λ password done''.
          let a = handle_login-IsAdmitted m crypto g client _ _ done'' in
          let known : ok a.user ≡ ok n =
            sym a.known ∙ by_email-known email (e.uuid 0) n sent key at in
          let active : true ≡ false = sym a.active ∙ ap attivo_of known in ground arith,
      done',
      IsAdmitted-handle_login m crypto g client _ _ i.named (record {
        user = activated (f.now 2) (secured (f.now 1) hash n);
        unlocked = unlocked;
        known = found;
        hashed = hashed.given;
        right = hashed.right;
        active = refl;
        verified = refl;
        coded = no-code _ _;
      }),
    )
