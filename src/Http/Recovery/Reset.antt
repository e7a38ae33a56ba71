-- ===== src/Http/Recovery/Reset.antt =====
-- The one-time tokens of internal/httpapi/server.go: what a reset does with the token it is given.
use visto_easy.Prelude.{
  ◌≡◌, refl, ◌∙◌, inl, inr, true, false, not, ◌||◌, String, [], ◌∷◌, some, Bool-cases, Option-cases,
  ◌==◌, if◌then◌else◌, trim_space, ltb, byte_length, if-cases, on_some-cases,
}
use visto_easy.Prelude.Clock.{Env, skip}
use visto_easy.Prelude.Dict.{lookup, lookup-insert_self}
use visto_easy.Model.{Utente, PasswordResetToken, SecurityEvent, AuditEvent}
use visto_easy.Store.State.{MemoryStore, ok, on_result-cases}
use visto_easy.Store.Events.{add_audit_event, add_security_event}
use visto_easy.Store.Users.{update_user_password, set_user, set_user_verification_state}
use visto_easy.Store.Sessions.{is_used, consume_password_reset_token, put_token, use_token}
use visto_easy.Store.Sessions.OneTime.{consume_live, consume_used, consume-ok}
use visto_easy.Http.Reply.{Client, Served, add_audit, record_security_event}
use visto_easy.Http.Access.{purpose_matches}
use visto_easy.Http.Tokens.{Crypto}
use visto_easy.Http.Recovery.{
  ResetRequest, reset_events, set_password, handle_reset_password, handle_verify_email,
}

-- Which one-time tokens a store has is the same in another.
abbrev pub SameTokens : MemoryStore → MemoryStore → Type 0
SameTokens s s' = s'.password_reset_tokens ≡ s.password_reset_tokens

set_user-SameTokens :
    (user : String) (f : Utente → Utente) (s : MemoryStore) → SameTokens s (set_user user f s).0
set_user-SameTokens user f s = elim (Option-cases (lookup (trim_space user) s.users)) [
  | inl absent ↦ rw absent refl
  | inr (u, found) ↦ rw found refl
]

update_user_password-SameTokens :
    (e : Env) (user hash : String) (s : MemoryStore)
    → SameTokens s (update_user_password e user hash s).0
unfolding update_user_password
update_user_password-SameTokens e user hash s =
    elim (Bool-cases (trim_space user == "" || trim_space hash == "")) [
      | inl blank ↦ rw blank refl
      | inr given ↦ rw given (set_user-SameTokens user _ s)
    ]

add_audit-SameTokens :
    (e : Env) (evt : AuditEvent) (s : MemoryStore) → SameTokens s (add_audit e evt s)
unfolding add_audit add_audit_event
add_audit-SameTokens e evt s =
    elim (Bool-cases (trim_space evt.action == "" || trim_space evt.resource == "")) [
      | inl h ↦ rw (h, add_audit) refl
      | inr h ↦ rw (h, add_audit) refl
    ]

pub record-SameTokens :
    (e : Env) (evt : SecurityEvent) (s : MemoryStore) → SameTokens s (record_security_event e evt s)
unfolding record_security_event add_security_event
record-SameTokens e evt s = elim (Bool-cases (trim_space evt.type == "")) [
  | inl h ↦ rw (h, record_security_event) refl
  | inr h ↦ rw (h, record_security_event) refl
]

reset_events-SameTokens :
    (e : Env) (client : Client) (t : PasswordResetToken) (s : MemoryStore)
    → SameTokens s (reset_events e client t s).0
reset_events-SameTokens e client t s = add_audit-SameTokens (skip 1 e) _ _ ∙ record-SameTokens e _ s

verify-SameTokens :
    (e : Env) (user : String) (s : MemoryStore)
    → SameTokens s (set_user_verification_state e user true true s).0
unfolding set_user_verification_state
verify-SameTokens e user s = set_user-SameTokens user _ s

set_password-SameTokens :
    (crypto : Crypto) (e : Env) (client : Client) (password : String) (t : PasswordResetToken)
    (s : MemoryStore)
    → SameTokens s (set_password crypto e client password t s).0
unfolding set_password
set_password-SameTokens crypto e client password t s =
    if-cases Same (not (purpose_matches t.purpose ("password_reset" ∷ "account_activation" ∷ [])))
      (λ _. refl)
      λ _.
        on_some-cases Same (crypto.generate_from_password (trim_space password)) (λ _. refl)
          λ hash _.
            let s1 = (update_user_password e t.user_id hash s).0 in
            let kept = update_user_password-SameTokens e t.user_id hash s in
            on_result-cases Same (update_user_password e t.user_id hash s).1 (λ _ _. kept)
              λ found _.
                if-cases Same (not found) (λ _. kept)
                  λ _. reset_events-SameTokens (skip 2 e) client t _ ∙ activated s1 ∙ kept
  where
    Same : Served → Type 0
    Same o = SameTokens s o.0

    activated :
        (s1 : MemoryStore)
        → SameTokens s1 (
            if t.purpose == "account_activation"
            then (set_user_verification_state (skip 1 e) t.user_id true true s1).0
            else s1)
    activated s1 =
        if-cases (λ (s2 : MemoryStore). SameTokens s1 s2) (t.purpose == "account_activation")
          (λ _. verify-SameTokens (skip 1 e) t.user_id s1) λ _. refl

-- The request passes the checks that come before the token is looked up.
abbrev pub IsWellFormed : ResetRequest → Type 0
IsWellFormed req =
    (ltb (byte_length (trim_space req.new_password)) 8 ≡ false)
    × ((trim_space req.token == "") ≡ false)

reset-uses :
    (crypto : Crypto) (e : Env) (client : Client) (req : ResetRequest) (s : MemoryStore)
    (t : PasswordResetToken)
    → IsWellFormed req
    → (consume_password_reset_token e (trim_space req.token) s).1 ≡ ok t
    → (r : PasswordResetToken) × (lookup
          (trim_space (trim_space req.token))
          (handle_reset_password crypto e client (some req) s).0.password_reset_tokens
        ≡ some r)
      × (is_used r ≡ true)
unfolding handle_reset_password
reset-uses crypto e client req s t (long, named) live =
    let tok = trim_space req.token in
    let (r, found, good, eq) = consume-ok e tok s t live in
    let s1 = put_token (trim_space tok) (use_token (e.now 0) r) s in
    (
      use_token (e.now 0) r,
      rw long (
          rw named (
            rw (consume_live e tok s r found good) (
              rw
                (set_password-SameTokens crypto (skip 1 e) client req.new_password
                  (use_token (e.now 0) r) s1)
                (lookup-insert_self (trim_space tok) (use_token (e.now 0) r)
                  s.password_reset_tokens)))),
      refl,
    )

-- A reset uses the token up, whatever comes of it: when a well-formed request for a new password
-- names a token that is unused and has not ended, then afterwards, whether the password was set or
-- the token was for another purpose or the hash failed, a further well-formed request for a new
-- password with the token is refused with 401, and so is a verification of an address with it. A
-- request is well-formed whose password has at least 8 bytes without the spaces around it, and
-- whose token is not blank.
pub reset-reset :
    (crypto : Crypto) (e again : Env) (client other : Client) (req next : ResetRequest)
    (s : MemoryStore) (t : PasswordResetToken)
    → IsWellFormed req
    → IsWellFormed next
    → trim_space next.token ≡ trim_space req.token
    → (consume_password_reset_token e (trim_space req.token) s).1 ≡ ok t
    → let s' = (handle_reset_password crypto e client (some req) s).0 in
      ((handle_reset_password crypto again other (some next) s').1.status ≡ 401)
      × ((handle_verify_email again (some next.token) s').1.status ≡ 401)
unfolding handle_reset_password handle_verify_email
reset-reset crypto e again client other req next s t well (long, named) same live =
    let s' = (handle_reset_password crypto e client (some req) s).0 in
    let (r, found, used) = reset-uses crypto e client req s t well live in
    let at : lookup (trim_space (trim_space next.token)) s'.password_reset_tokens ≡ some r =
      rw same found in
    let dead = consume_used again (trim_space next.token) s' r at used in
    (rw long (rw named (rw dead refl)), rw named (rw dead refl))
