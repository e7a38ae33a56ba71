-- ===== src/Mongo/Sessions.antt =====
-- internal/store/mongo.go: refresh sessions and one-time tokens.
use visto_easy.Prelude.{
  ℕ, Bool, not, ◌&&◌, ◌||◌, String, List, none, ◌==◌, if◌then◌else◌, trim_space, ltb, leb,
}
use visto_easy.Prelude.Clock.{Time, Env, after}
use visto_easy.Model.{RefreshSession, PasswordResetToken}
use visto_easy.Store.State.{not_found, forbidden_state}
use visto_easy.Store.Sessions.{stored_session, revoke, is_used, stored_token, use_token}
use visto_easy.Mongo.Driver.{
  MongoStore, Reply, done, refused, fault, on_answer, on_reply, find_by, list_by,
}

module _ {S : Type 0} (db : MongoStore S) where
  unfoldable pub create_refresh_session : Env → RefreshSession → S → S × Reply RefreshSession
  create_refresh_session e r s =
      let id = trim_space r.id in
      let r' = stored_session (e.now 0) (record r { id = id }) in
      let (s', written) = db.refresh_sessions.upsert_one (λ q. q.id == id) (λ _. r') r' s in
      if id == ""
      then (s, refused forbidden_state)
      else on_answer written (s', fault) λ _. (s', done r')

  -- A session past its end is deleted, and an error of the deletion ignored.
  unfoldable pub get_refresh_session_by_id : Env → String → S → S × Reply RefreshSession
  get_refresh_session_by_id e id s =
      let id' = trim_space id in
      on_reply s (find_by db.refresh_sessions (λ r. r.id == id') s) λ r.
        if after (e.now 0) r.expires_at
        then ((db.refresh_sessions.delete_one (λ q. q.id == id') s).0, refused not_found)
        else (s, done r)

  unfoldable pub list_refresh_sessions_by_user : Env → String → S → S × List RefreshSession
  unfolding list_by
  list_refresh_sessions_by_user e user s =
      let now = e.now 0 in
      let s' = (db.refresh_sessions.delete_many (λ r. leb r.expires_at now) s).0 in
      (
        s',
        list_by db.refresh_sessions (λ r. r.user_id == trim_space user && ltb now r.expires_at)
            (λ r. r.creato_il) none s',
      )

  unfoldable pub revoke_refresh_session : Env → String → String → S → S × Reply Bool
  revoke_refresh_session e id replaced_by s =
      let (s', updated) =
        db.refresh_sessions.update_one (λ r. r.id == trim_space id && not r.revoked)
          (revoke (e.now 0) (trim_space replaced_by)) s in
      on_answer updated (s', fault) λ n. (s', done (ltb 0 n.modified))

  unfoldable pub revoke_all_refresh_sessions_by_user : Env → String → S → S × Reply ℕ
  revoke_all_refresh_sessions_by_user e user s =
      let now = e.now 0 in
      let (s', updated) =
        db.refresh_sessions.update_many
          (λ r. r.user_id == trim_space user && not r.revoked && ltb now r.expires_at)
          (revoke now "admin_bulk_revoke") s in
      on_answer updated (s', fault) λ n. (s', done n.modified)

  unfoldable pub create_password_reset_token :
      Env → PasswordResetToken → S → S × Reply PasswordResetToken
  create_password_reset_token e t s =
      let tok = trim_space t.token in
      let t' = stored_token tok (e.now 0) t in
      let (s', written) =
        db.password_reset_tokens.upsert_one (λ q. q.token == tok) (λ _. t') t' s in
      if tok == "" || trim_space t.user_id == ""
      then (s, refused forbidden_state)
      else on_answer written (s', fault) λ _. (s', done t')

  -- What `ConsumePasswordResetToken` does with the record that it has read. A dead token is
  -- deleted, and an error of the deletion ignored. A token that another call has used between the
  -- read and the update is not found.
  unfoldable pub use_read_token :
      Time → String → PasswordResetToken → S → S × Reply PasswordResetToken
  use_read_token now tok t s =
      let (s', updated) =
        db.password_reset_tokens.update_one
          (λ q. q.token == tok && (ltb now q.expires_at && not (is_used q))) (use_token now) s in
      if is_used t || after now t.expires_at
      then ((db.password_reset_tokens.delete_one (λ q. q.token == tok) s).0, refused not_found)
      else on_answer updated (s', fault)
          λ n. if leb n.modified 0 then (s', refused not_found) else (s', done (use_token now t))

  unfoldable pub consume_password_reset_token : Env → String → S → S × Reply PasswordResetToken
  unfolding use_read_token
  consume_password_reset_token e token s =
      let tok = trim_space token in
      on_reply s (find_by db.password_reset_tokens (λ t. t.token == tok) s)
        λ t. use_read_token (e.now 0) tok t s
