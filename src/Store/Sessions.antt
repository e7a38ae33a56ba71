-- ===== src/Store/Sessions.antt =====
-- internal/store/memory.go: refresh sessions and one-time tokens.
pub mod Revocation
pub mod OneTime
use visto_easy.Prelude.{
  ℕ, suc, Bool, true, false, not, ◌||◌, String, List, [], ◌∷◌, Option, none, some, ◌==◌,
  if◌then◌else◌, on_some, trim_space,
}
use visto_easy.Prelude.Clock.{Time, Env, is_zero, after}
use visto_easy.Prelude.Dict.{Dict, lookup, insert, erase, values}
use visto_easy.Model.{RefreshSession, PasswordResetToken}
use visto_easy.Store.State.{MemoryStore, Outcome, Result, ok, err, not_found, forbidden_state}
use visto_easy.Store.Order.{latest_first}

-- `s.refreshSessions[id] = session`
abbrev put_session : String → RefreshSession → MemoryStore → MemoryStore
put_session id r s = record s { refresh_sessions = insert id r s.refresh_sessions }

-- `delete(s.refreshSessions, id)`
abbrev drop_session : String → MemoryStore → MemoryStore
drop_session id s = record s { refresh_sessions = erase id s.refresh_sessions }

-- The session that a creation stores.
abbrev pub stored_session : Time → RefreshSession → RefreshSession
stored_session now r = record r {
  creato_il = if is_zero r.creato_il then now else r.creato_il;
  aggiornato_il = now;
}

unfoldable pub create_refresh_session : Env → RefreshSession → MemoryStore → Outcome RefreshSession
create_refresh_session e r s =
    let r' = stored_session (e.now 0) r in
    if trim_space r.id == ""
    then (s, err forbidden_state)
    else (put_session (trim_space r.id) r' s, ok r')

-- A session past its end is deleted by the read that finds it.
unfoldable pub get_refresh_session_by_id : Env → String → MemoryStore → Outcome RefreshSession
get_refresh_session_by_id e id s =
    on_some (lookup (trim_space id) s.refresh_sessions) (s, err not_found)
      λ r.
        if after (e.now 0) r.expires_at
        then (drop_session (trim_space id) s, err not_found)
        else (s, ok r)

-- What the loop of `ListRefreshSessionsByUser` leaves in the map.
unfoldable pub unexpired : Time → Dict RefreshSession → Dict RefreshSession
unexpired now [] = []
unexpired now ((id, r) ∷ m) =
    let rest = unexpired now m in if after now r.expires_at then rest else (id, r) ∷ rest

-- The sessions of one user that it collects.
unfoldable pub sessions_of : String → Dict RefreshSession → List RefreshSession
sessions_of user [] = []
sessions_of user ((id, r) ∷ m) =
    let rest = sessions_of user m in if r.user_id == user then r ∷ rest else rest

unfoldable pub list_refresh_sessions_by_user :
    Env → String → MemoryStore → MemoryStore × List RefreshSession
unfolding unexpired sessions_of
list_refresh_sessions_by_user e user s =
    let live = unexpired (e.now 0) s.refresh_sessions in
    (
      record s { refresh_sessions = live },
      latest_first (λ (r : RefreshSession). r.creato_il) (sessions_of (trim_space user) live),
    )

-- The session that a revocation stores.
abbrev pub revoke : Time → String → RefreshSession → RefreshSession
revoke now replaced_by r = record r {
  revoked = true;
  revoked_at = some now;
  replaced_by = replaced_by;
  aggiornato_il = now;
}

unfoldable pub revoke_refresh_session : Env → String → String → MemoryStore → Outcome Bool
revoke_refresh_session e id replaced_by s =
    on_some (lookup (trim_space id) s.refresh_sessions) (s, ok false)
      λ r.
        if r.revoked
        then (s, ok false)
        else (put_session (trim_space id) (revoke (e.now 0) (trim_space replaced_by) r) s, ok true)

-- The loop of `RevokeAllRefreshSessionsByUser`: the map that it leaves, and how many sessions it
-- has revoked.
unfoldable pub revoke_all : Time → String → Dict RefreshSession → Dict RefreshSession × ℕ
revoke_all now user [] = ([], 0)
revoke_all now user ((id, r) ∷ m) =
    let (rest, n) = revoke_all now user m in
    if not (r.user_id == user)
    then ((id, r) ∷ rest, n)
    else if after now r.expires_at
    then (rest, n)
    else if r.revoked
    then ((id, r) ∷ rest, n)
    else ((id, revoke now "admin_bulk_revoke" r) ∷ rest, suc n)

unfoldable pub revoke_all_refresh_sessions_by_user : Env → String → MemoryStore → MemoryStore × ℕ
unfolding revoke_all
revoke_all_refresh_sessions_by_user e user s =
    let (m, n) = revoke_all (e.now 0) (trim_space user) s.refresh_sessions in
    (record s { refresh_sessions = m }, n)

-- `s.passwordResetTokens[tok] = rec`
abbrev pub put_token : String → PasswordResetToken → MemoryStore → MemoryStore
put_token tok t s = record s { password_reset_tokens = insert tok t s.password_reset_tokens }

-- The token that a creation stores, under its trimmed text.
abbrev pub stored_token : String → Time → PasswordResetToken → PasswordResetToken
stored_token tok now t = record t {
  token = tok;
  creato_il = if is_zero t.creato_il then now else t.creato_il;
  aggiornato_il = now;
}

unfoldable pub create_password_reset_token :
    Env → PasswordResetToken → MemoryStore → Outcome PasswordResetToken
create_password_reset_token e t s =
    let tok = trim_space t.token in
    let t' = stored_token tok (e.now 0) t in
    if tok == "" || trim_space t.user_id == ""
    then (s, err forbidden_state)
    else (put_token tok t' s, ok t')

-- `delete(s.passwordResetTokens, tok)`
abbrev pub drop_token : String → MemoryStore → MemoryStore
drop_token tok s = record s { password_reset_tokens = erase tok s.password_reset_tokens }

-- `rec.UsedAt != nil`
abbrev pub is_used : PasswordResetToken → Bool
is_used t = on_some t.used_at false λ _. true

-- The record that a use leaves.
abbrev pub use_token : Time → PasswordResetToken → PasswordResetToken
use_token now t = record t { used_at = some now; aggiornato_il = now }

unfoldable pub consume_password_reset_token :
    Env → String → MemoryStore → Outcome PasswordResetToken
consume_password_reset_token e token s =
    let tok = trim_space token in
    let now = e.now 0 in
    on_some (lookup tok s.password_reset_tokens) (s, err not_found)
      λ t.
        if is_used t || after now t.expires_at
        then (drop_token tok s, err not_found)
        else (put_token tok (use_token now t) s, ok (use_token now t))
