-- ===== src/Http/Invites/Sending.antt =====
-- internal/httpapi/server.go: what an invitation of an operator leaves in the store.
use mathlib.Core.Path.{subst}
use visto_easy.Prelude.{
  Option, ◌≡◌, refl, ap, ◌∙◌, inl, inr, false, not, ◌&&◌, ◌||◌, ◌+◌, ◌*◌, String, some, arith,
  Bool-cases, Option-cases, ◌==◌, trim_space, to_lower, eqb,
}
use visto_easy.Prelude.Clock.{Time, Env, skip, hour}
use visto_easy.Prelude.Dict.{lookup, insert, lookup-insert_self}
use visto_easy.Model.{Utente, PasswordResetToken, AuditEvent}
use visto_easy.Store.State.{MemoryStore}
use visto_easy.Store.Events.{add_audit_event}
use visto_easy.Store.Users.{email_key, registered, add_user, create_user}
use visto_easy.Store.Sessions.{create_password_reset_token, stored_token, put_token}
use visto_easy.Http.Reply.{
  Claims, Client, Body, Reply, write_json, invited_body, record_audit_event,
}
use visto_easy.Http.Password.{has}
use visto_easy.Http.Tokens.{Crypto}
use visto_easy.Http.Recovery.{Outside, one_time, mail_event}
use visto_easy.Http.Recovery.Reset.{SameTokens, record-SameTokens}
use visto_easy.Http.Registration.Unverified.{SameUsers, record-SameUsers}
use visto_easy.Http.Invites.{InviteRequest, invited, send_invite, handle_bo_invite_operatore}

-- Users, their index and the one-time tokens are the same in two stores.
abbrev pub Same : MemoryStore → MemoryStore → Type 0
Same s s' = SameUsers s s' × SameTokens s s'

pub audit-Same : (e : Env) (evt : AuditEvent) (s : MemoryStore) → Same s (add_audit_event e evt s).0
unfolding add_audit_event
audit-Same e evt s =
    elim (Bool-cases (trim_space evt.action == "" || trim_space evt.resource == "")) [
      | inl h ↦ rw h ((refl, refl), refl)
      | inr h ↦ rw h ((refl, refl), refl)
    ]

mail-Same :
    (e : Env) (client : Client) (out : Outside) (email user outcome : String) (s : MemoryStore)
    → Same s (mail_event e client out email user outcome s)
mail-Same e client out email user outcome s = elim (Bool-cases (out.mail_fails email)) [
  | inl fails ↦ rw fails (record-SameUsers e _ s, record-SameTokens e _ s)
  | inr sent ↦ rw sent ((refl, refl), refl)
]

-- The user and the token in a reply.
abbrev user_of : Body → Utente → Utente
user_of (invited_body u token t) default = u
user_of _ default = default

abbrev token_of : Body → String
token_of (invited_body u token t) = token
token_of _ = ""

abbrev pub new_operator : Env → InviteRequest → String → Utente
new_operator e req hash =
    registered (e.uuid 0) (e.now 0) (invited (to_lower (trim_space req.email)) hash req)

abbrev pub kept_token : Env → InviteRequest → String → PasswordResetToken
kept_token e req token =
    one_time token "account_activation" (e.uuid 0) (to_lower (trim_space req.email))
      (e.now 1 + 72 * hour)

-- What an invitation leaves: a new operator, who is not active, under a free address, and a token
-- to activate the account.
pub record IsInvited (e : Env) (req : InviteRequest) (u : Utente) (token : String)
    (s s' : MemoryStore) : Type 0 where
  pub hash : String
  pub same : new_operator e req hash ≡ u
  pub named : (to_lower (trim_space req.email) == "") ≡ false
  pub users : s'.users ≡ insert (e.uuid 0) (new_operator e req hash) s.users
  pub by_email :
      s'.by_email ≡ insert (email_key (to_lower (trim_space req.email))) (e.uuid 0) s.by_email
  pub present : (trim_space (e.uuid 0) == "") ≡ false
  pub kept :
      lookup (trim_space token) s'.password_reset_tokens
      ≡ some (stored_token (trim_space token) (e.now 2) (kept_token e req token))

send_invite_lem :
    (e : Env) (client : Client) (c : Claims) (out : Outside) (email : String) (v u : Utente)
    (token : String) (end_ : Time) (s : MemoryStore)
    → let o = send_invite e client c out email v s in
      o.1 ≡ write_json 201 (invited_body u token end_)
      → (v ≡ u)
        × ((trim_space v.id == "") ≡ false)
        × SameUsers s o.0
        × (lookup (trim_space token) o.0.password_reset_tokens
            ≡ some (
                stored_token
                  (trim_space token)
                  (e.now 1)
                  (one_time token "account_activation" v.id email (e.now 0 + 72 * hour))))
unfolding send_invite create_password_reset_token record_audit_event
send_invite_lem e client c out email v u token end_ s h = elim (Option-cases out.random_token) [
  | inl absent ↦ absurd (cc (rw absent at h))
  | inr (tok, drawn) ↦ elim (Bool-cases (trim_space tok == "" || trim_space v.id == "")) [
    | inl blank ↦ absurd (cc (rw (drawn, blank) at h))
    | inr given ↦
        let h' = rw (drawn, given) at h in
        let text : tok ≡ token = ap (λ (r : Reply). token_of r.body) h' in
        let t = stored tok in
        let s1 = put_token (trim_space tok) t s in
        let s2 = mail_event (skip 2 e) client out email v.id "operator_invite" s1 in
        let (users, tokens) = audit-Same (skip 3 e) _ s2 in
        let (users', tokens') = mail-Same (skip 2 e) client out email v.id "operator_invite" s1 in
        (
          ap (λ (r : Reply). user_of r.body v) h',
          ground arith,
          rw (drawn, given) (users.0 ∙ users'.0, users.1 ∙ users'.1),
          subst
              (λ (x : String).
                lookup (trim_space x) (send_invite e client c out email v s).0.password_reset_tokens
                ≡ some (stored x))
              text
              (rw (drawn, given)
                (ap (lookup (trim_space tok)) (tokens ∙ tokens')
                  ∙ lookup-insert_self (trim_space tok) t s.password_reset_tokens)),
        )
  ]
]
  where
    stored : String → PasswordResetToken
    stored x =
        stored_token (trim_space x) (e.now 1)
          (one_time x "account_activation" v.id email (e.now 0 + 72 * hour))

pub invite_lem :
    (crypto : Crypto) (e : Env) (client : Client) (out : Outside) (temporary : Option String)
    (c : Claims) (req : InviteRequest) (u : Utente) (token : String) (end_ : Time) (s : MemoryStore)
    → let o = handle_bo_invite_operatore crypto e client out temporary (some c) (some req) s in
      o.1 ≡ write_json 201 (invited_body u token end_) → IsInvited e req u token s o.0
unfolding handle_bo_invite_operatore create_user
invite_lem crypto e client out temporary c req u token end_ s h =
    let email = to_lower (trim_space req.email) in
    elim (Bool-cases (not (c.role == "ADMIN") && not (c.role == "SUPERVISORE"))) [
      | inl foreign ↦ absurd (cc (rw foreign at h))
      | inr admin ↦ elim (Bool-cases (email == "" || not (has (λ x. eqb x b'@') email))) [
        | inl bad ↦ absurd (cc (rw (admin, bad) at h))
        | inr good ↦ elim (Bool-cases (trim_space req.nome == "" || trim_space req.cognome == "")) [
          | inl unnamed ↦ absurd (cc (rw (admin, good, unnamed) at h))
          | inr named ↦ elim (Option-cases temporary) [
            | inl none_ ↦ absurd (cc (rw (admin, good, named, none_) at h))
            | inr (password, drawn) ↦ elim (Option-cases (crypto.generate_from_password password)) [
              | inl none_ ↦ absurd (cc (rw (admin, good, named, drawn, none_) at h))
              | inr (hash, hashed) ↦ elim (Option-cases (lookup (email_key email) s.by_email)) [
                | inr (id, taken) ↦ absurd (cc (rw (admin, good, named, drawn, hashed, taken) at h))
                | inl free ↦
                    let v = registered (e.uuid 0) (e.now 0) (invited email hash req) in
                    let (same, present, users, kept) =
                      send_invite_lem (skip 1 e) client c out email v u token end_
                        (add_user (email_key email) v s)
                        (rw (admin, good, named, drawn, hashed, free) at h) in
                    rw (admin, good, named, drawn, hashed, free)
                      (record {
                        hash = hash;
                        same = same;
                        named = ground arith;
                        present = present;
                        users = users.0;
                        by_email = users.1;
                        kept = kept;
                      })
              ]
            ]
          ]
        ]
      ]
    ]
