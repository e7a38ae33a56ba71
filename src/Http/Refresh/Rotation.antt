-- ===== src/Http/Refresh/Rotation.antt =====
-- The refresh of internal/httpapi/server.go: a refresh token is good for one refresh.
use visto_easy.Prelude.{
  ◌≡◌, refl, ◌⊎◌, inl, inr, Bool, true, false, ◌||◌, String, some, arith, Bool-cases, Option-cases,
  ◌==◌, trim_space,
}
use visto_easy.Prelude.Clock.{Env, skip, after}
use visto_easy.Prelude.Dict.{lookup, erase, lookup-insert, lookup-insert_self}
use visto_easy.Model.{RefreshSession, AuditEvent}
use visto_easy.Store.State.{MemoryStore}
use visto_easy.Store.Events.{add_audit_event}
use visto_easy.Store.Sessions.{
  create_refresh_session, get_refresh_session_by_id, revoke_refresh_session, stored_session,
}
use visto_easy.Http.Reply.{Claims, Client, add_audit}
use visto_easy.Http.Tokens.{TokenManager, parse}
use visto_easy.Http.Auth.{opened}
use visto_easy.Http.Refresh.{is_foreign, rotate, refresh_with, handle_refresh}

add_audit-refresh_sessions :
    (e : Env) (evt : AuditEvent) (s : MemoryStore)
    → (add_audit e evt s).refresh_sessions ≡ s.refresh_sessions
unfolding add_audit add_audit_event
add_audit-refresh_sessions e evt s =
    elim (Bool-cases (trim_space evt.action == "" || trim_space evt.resource == "")) [
      | inl h ↦ rw (h, add_audit) refl
      | inr h ↦ rw (h, add_audit) refl
    ]

-- The session under a key is there, and it is revoked or not.
abbrev Holds : Bool → String → MemoryStore → Type 0
Holds revoked k s =
    (r : RefreshSession) × (lookup k s.refresh_sessions ≡ some r) × (r.revoked ≡ revoked)

create-Holds :
    (e : Env) (new : RefreshSession) (k : String) (s : MemoryStore)
    → new.revoked ≡ false
    → Holds false k s
    → Holds false k (create_refresh_session e new s).0
unfolding create_refresh_session
create-Holds e new k s live (r, found, old) = elim (Bool-cases (trim_space new.id == "")) [
  | inl blank ↦ rw blank (r, found, old)
  | inr named ↦ rw named (elim (Bool-cases (trim_space new.id == k)) [
    | inl same ↦ (
      stored_session (e.now 0) new,
      rw (lookup-insert k (trim_space new.id) (stored_session (e.now 0) new) s.refresh_sessions)
          (rw same refl),
      live,
    )
    | inr other ↦ (
      r,
      rw (lookup-insert k (trim_space new.id) (stored_session (e.now 0) new) s.refresh_sessions)
          (rw other found),
      old,
    )
  ])
]

revoke-Holds :
    (e : Env) (id by : String) (s : MemoryStore)
    → Holds false (trim_space id) s
    → Holds true (trim_space id) (revoke_refresh_session e id by s).0
unfolding revoke_refresh_session
revoke-Holds e id by s (r, found, live) =
    rw found (rw live (_, lookup-insert_self (trim_space id) _ s.refresh_sessions, refl))

rotate-Holds :
    (m : TokenManager) (e : Env) (client : Client) (c : Claims) (s : MemoryStore)
    → Holds false (trim_space c.id) s
    → Holds true (trim_space c.id) (rotate m e client c s).0
unfolding rotate
rotate-Holds m e client c s live =
    let s1 =
      (create_refresh_session (skip 5 e) (opened (e.uuid 0) c.user_id c.role (e.now 4)) s).0 in
    let s2 = (revoke_refresh_session (skip 6 e) c.id (e.uuid 0) s1).0 in
    let (r, found, revoked) =
      revoke-Holds (skip 6 e) c.id (e.uuid 0) s1 (create-Holds (skip 5 e) _ _ s refl live) in
    (r, rw (add_audit-refresh_sessions (skip 7 e) _ s2) found, revoked)

-- What a refusal leaves of the sessions: all, or all but the one under a key.
abbrev pub IsKept : String → MemoryStore → MemoryStore → Type 0
IsKept k s s' =
    (s'.refresh_sessions ≡ s.refresh_sessions) ⊎ (s'.refresh_sessions ≡ erase k s.refresh_sessions)

revoked-refused :
    (m : TokenManager) (e : Env) (client : Client) (c : Claims) (s : MemoryStore)
    → Holds true (trim_space c.id) s
    → let o = refresh_with m e client c s in (o.1.status ≡ 401) × IsKept (trim_space c.id) s o.0
unfolding refresh_with get_refresh_session_by_id
revoked-refused m e client c s (r, found, revoked) = elim (Bool-cases (trim_space c.id == "")) [
  | inl blank ↦ rw blank (refl, inl (add_audit-refresh_sessions _ _ s))
  | inr named ↦ elim (Bool-cases (after (e.now 0) r.expires_at)) [
    | inl ended ↦ rw named (rw found (rw ended (refl, inr (add_audit-refresh_sessions _ _ _))))
    | inr lasting ↦
        rw named (rw found (rw lasting (rw revoked (refl, inl (add_audit-refresh_sessions _ _ s)))))
  ]
]

-- A refresh that goes through with the claims was of a session that was not revoked.
refreshed-Holds :
    (m : TokenManager) (e : Env) (client : Client) (c : Claims) (s : MemoryStore)
    → let o = refresh_with m e client c s in o.1.status ≡ 200 → Holds true (trim_space c.id) o.0
unfolding refresh_with get_refresh_session_by_id
refreshed-Holds m e client c s = elim (Bool-cases (trim_space c.id == "")) [
  | inl blank ↦ rw blank (λ h. absurd (omega (arith, h)))
  | inr named ↦ elim (Option-cases (lookup (trim_space c.id) s.refresh_sessions)) [
    | inl absent ↦ rw named (rw absent (λ h. absurd (omega (arith, h))))
    | inr (r, found) ↦ elim (Bool-cases (after (e.now 0) r.expires_at)) [
      | inl ended ↦ rw named (rw found (rw ended (λ h. absurd (omega (arith, h)))))
      | inr lasting ↦ elim (Bool-cases (is_foreign c r)) [
        | inl foreign ↦
            rw named (rw found (rw lasting (rw foreign (λ h. absurd (omega (arith, h))))))
        | inr own ↦
            let live : r.revoked ≡ false = ground arith in
            rw named (
              rw found
                (rw lasting (rw own (λ h. rotate-Holds m (skip 1 e) client c s (r, found, live)))))
      ]
    ]
  ]
]

-- A refresh token is good for one refresh: when a refresh with a token went through with 200, a
-- further refresh with it, at any time at which the token still parses to the same claims, is
-- refused with 401, and of the sessions it at most deletes the token's own.
pub refresh-refresh :
    (m : TokenManager) (e again : Env) (client other : Client) (token : String) (c : Claims)
    (s : MemoryStore)
    → parse m (e.now 0) token ≡ some c
    → parse m (again.now 0) token ≡ some c
    → (handle_refresh m e client (some token) s).1.status ≡ 200
    → let s' = (handle_refresh m e client (some token) s).0 in
      let o = handle_refresh m again other (some token) s' in
      (o.1.status ≡ 401) × IsKept (trim_space c.id) s' o.0
unfolding handle_refresh
refresh-refresh m e again client other token c s valid still done =
    elim (Bool-cases (c.type == "refresh")) [
      | inl right ↦
          let passed : (refresh_with m (skip 1 e) client c s).1.status ≡ 200 =
            rw right at (rw valid at done) in
          let held = refreshed-Holds m (skip 1 e) client c s passed in
          rw valid (rw still (rw right (revoked-refused m (skip 1 again) other c _ held)))
      | inr wrong ↦ absurd (ground (arith, done))
    ]
