-- ===== src/Store/Sessions/Revocation.antt =====
-- Revoking refresh sessions, by internal/store/memory.go.
use visto_easy.Prelude.{
  ℕ, ◌≡◌, refl, ◌⊎◌, ◌≢◌, true, not, inl, inr, String, [], ◌∷◌, arith, if-cases, trim_space, ◌==◌,
  All,
}
use visto_easy.Prelude.Clock.{Time, Env, after}
use visto_easy.Prelude.Dict.{Dict, values}
use visto_easy.Model.{RefreshSession}
use visto_easy.Store.State.{MemoryStore}
use visto_easy.Store.Sessions.{revoke_all, revoke_all_refresh_sessions_by_user}

-- The session is not one of the user that is still good.
abbrev pub IsShut : String → RefreshSession → Type 0
IsShut user r = (r.user_id ≢ user) ⊎ (r.revoked ≡ true)

revoke_all-All :
    (now : Time) (user : String) (m : Dict RefreshSession)
    → All (IsShut user) (values (revoke_all now user m).0)
unfolding revoke_all values
revoke_all-All now user [] = tt
revoke_all-All now user ((id, r) ∷ m) =
    let rest = revoke_all-All now user m in
    if-cases Shut (not (r.user_id == user)) (λ other. (inl (ground arith), rest))
      λ own.
        if-cases Shut (after now r.expires_at) (λ _. rest)
          λ live. if-cases Shut r.revoked (λ done. (inr done, rest)) λ _. (inr refl, rest)
  where
    Shut : Dict RefreshSession × ℕ → Type 0
    Shut o = All (IsShut user) (values o.0)

pub bulk_revoke-IsShut :
    (e : Env) (user : String) (s : MemoryStore)
    → All
        (IsShut (trim_space user))
        (values (revoke_all_refresh_sessions_by_user e user s).0.refresh_sessions)
unfolding revoke_all_refresh_sessions_by_user
bulk_revoke-IsShut e user s = revoke_all-All (e.now 0) (trim_space user) s.refresh_sessions
