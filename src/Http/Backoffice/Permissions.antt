-- ===== src/Http/Backoffice/Permissions.antt =====
-- What an administrator's revocation does to the sessions of a user, in internal/httpapi/server.go.
use mathlib.Core.Path.{subst}
use visto_easy.Prelude.{
  ◌≡◌, ◌≢◌, refl, ◌∙◌, inl, inr, true, ◌||◌, String, [], ◌∷◌, Option, none, some, arith, Bool-cases,
  Option-cases, ◌==◌, trim_space, All,
}
use visto_easy.Prelude.Clock.{Env, after}
use visto_easy.Prelude.Dict.{Dict, lookup, values}
use visto_easy.Model.{RefreshSession, SecurityEvent, Fields}
use visto_easy.Store.State.{MemoryStore, Result-cases}
use visto_easy.Store.Events.{add_security_event, add_audit_event}
use visto_easy.Store.Users.{get_user_by_id}
use visto_easy.Store.Sessions.{revoke_all_refresh_sessions_by_user, get_refresh_session_by_id}
use visto_easy.Store.Sessions.Revocation.{IsShut, bulk_revoke-IsShut}
use visto_easy.Http.Reply.{Claims, Client, record_security_event, record_audit_event}
use visto_easy.Http.Tokens.{TokenManager}
use visto_easy.Http.Refresh.{is_foreign, refresh_with}
use visto_easy.Http.Backoffice.{handle_bo_revoke_user_sessions}

All-lookup :
    (P : RefreshSession → Type 0) (k : String) (r : RefreshSession) (m : Dict RefreshSession)
    → All P (values m)
    → lookup k m ≡ some r
    → P r
unfolding values lookup
All-lookup P k r [] h found = absurd (ground arith)
All-lookup P k r ((j, q) ∷ m) (h, hs) found = elim (Bool-cases (j == k)) [
  | inl same ↦ let e : q ≡ r = ground arith in rw e at h
  | inr other ↦ All-lookup P k r m hs (rw other at found)
]

-- With claims of the user, no session that is shut for the user is refreshed.
shut-refused :
    (m : TokenManager) (e : Env) (client : Client) (c : Claims) (s : MemoryStore)
    → All (IsShut c.user_id) (values s.refresh_sessions)
    → (refresh_with m e client c s).1.status ≢ 200
unfolding refresh_with get_refresh_session_by_id
shut-refused m e client c s shut h = elim (Bool-cases (trim_space c.id == "")) [
  | inl blank ↦ omega (arith, rw blank at h)
  | inr named ↦ elim (Option-cases (lookup (trim_space c.id) s.refresh_sessions)) [
    | inl absent ↦ omega (arith, rw (named, absent) at h)
    | inr (r, found) ↦ elim (Bool-cases (after (e.now 0) r.expires_at)) [
      | inl ended ↦ omega (arith, rw (named, found, ended) at h)
      | inr lasting ↦
          let foreign : is_foreign c r ≡ true =
            elim (All-lookup (IsShut c.user_id) _ r _ shut found) [
              | inl other ↦ ground arith
              | inr revoked ↦ ground arith
            ] in
          omega (arith, rw (named, found, lasting, foreign) at h)
    ]
  ]
]

still_shut-refused :
    (m : TokenManager) (e : Env) (client : Client) (c : Claims) (s s' : MemoryStore)
    → s'.refresh_sessions ≡ s.refresh_sessions
    → All (IsShut c.user_id) (values s.refresh_sessions)
    → (refresh_with m e client c s').1.status ≢ 200
still_shut-refused m e client c s s' kept shut = shut-refused m e client c s' (rw kept shut)

add_audit-refresh_sessions :
    (e : Env) (client : Client) (c : Option Claims) (action resource id : String) (d : Fields)
    (s : MemoryStore)
    → (record_audit_event e client c action resource id d s).refresh_sessions ≡ s.refresh_sessions
unfolding record_audit_event add_audit_event
add_audit-refresh_sessions e client none action resource id d s = refl
add_audit-refresh_sessions e client (some c) action resource id d s =
    elim (Bool-cases
      (trim_space (trim_space action) == "" || trim_space (trim_space resource) == "")) [
        | inl h ↦ rw (h, record_audit_event) refl
        | inr h ↦ rw (h, record_audit_event) refl
      ]

record-refresh_sessions :
    (e : Env) (evt : SecurityEvent) (s : MemoryStore)
    → (record_security_event e evt s).refresh_sessions ≡ s.refresh_sessions
unfolding record_security_event add_security_event
record-refresh_sessions e evt s = elim (Bool-cases (trim_space evt.type == "")) [
  | inl h ↦ rw (h, record_security_event) refl
  | inr h ↦ rw (h, record_security_event) refl
]

-- An administrator's revocation shuts a user out of the open sessions: once a bulk revocation for
-- an identifier without spaces around it has replied 200, no refresh with claims of that user goes
-- through with 200 in the store that it left, whatever session they name.
pub revoke_user_sessions-refresh :
    (e again : Env) (client other : Client) (claims : Option Claims) (user : String)
    (s : MemoryStore) (m : TokenManager) (c : Claims)
    → trim_space user ≡ user
    → c.user_id ≡ user
    → (handle_bo_revoke_user_sessions e client claims user s).1.status ≡ 200
    → (refresh_with m again other c
        (handle_bo_revoke_user_sessions e client claims user s).0).1.status
      ≢ 200
unfolding handle_bo_revoke_user_sessions
revoke_user_sessions-refresh e again client other none user s m c plain own done =
    absurd (omega (arith, done))
revoke_user_sessions-refresh e again client other (some a) user s m c plain own done =
    elim (Bool-cases (a.role == "ADMIN")) [
      | inr other_role ↦ absurd (omega (arith, rw other_role at done))
      | inl admin ↦ elim (Bool-cases (trim_space user == "")) [
        | inl blank ↦ absurd (omega (arith, rw (admin, blank) at done))
        | inr named ↦ elim (Result-cases (get_user_by_id (trim_space user) s)) [
          | inl (x, absent) ↦ absurd (omega (arith, rw (admin, named, absent) at done))
          | inr (u, known) ↦
              let s1 = (revoke_all_refresh_sessions_by_user e (trim_space user) s).0 in
              let shut : All (IsShut c.user_id) (values s1.refresh_sessions) =
                rw (own, plain)
                  (subst
                    (λ k.
                      All (IsShut k)
                        (values (revoke_all_refresh_sessions_by_user e user s).0.refresh_sessions))
                    plain (bulk_revoke-IsShut e user s)) in
              rw (admin, named, known)
                (still_shut-refused m again other c s1 _
                  (add_audit-refresh_sessions _ _ _ _ _ _ _ _ ∙ record-refresh_sessions _ _ s1)
                  shut)
        ]
      ]
    ]
