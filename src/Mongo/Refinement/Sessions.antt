-- ===== src/Mongo/Refinement/Sessions.antt =====
-- Refresh sessions and one-time tokens of internal/store/mongo.go, method by method against memory.go.
use visto_easy.Prelude.{
  true, false, not, ◌≡◌, ◌≢◌, refl, ap, inl, inr, String, List, some, ◌==◌, ◌||◌, ◌&&◌, arith,
  Bool-cases, Option-cases, trim_space, ltb,
}
use visto_easy.Prelude.Clock.{Env, Time, after}
use visto_easy.Prelude.Dict.{Dict, lookup}
use visto_easy.Model.{RefreshSession, PasswordResetToken}
use visto_easy.Store.State.{MemoryStore}
use visto_easy.Store.Sessions as Memory
use visto_easy.Store.Sessions.{revoke, is_used, use_token, stored_session, stored_token}
use visto_easy.Mongo.Driver.{MongoStore}
use visto_easy.Mongo.Tables.{Tables, Serves}
use visto_easy.Mongo.Sessions as Mongo
use visto_easy.Mongo.Refinement.Keyed.{Keyed}
use visto_easy.Mongo.Refinement.Keys.{upsert_lem, delete_lem, update_and_lem}
use visto_easy.Mongo.Refinement.Reads.{read_then}
use visto_easy.Mongo.Refinement.Writes.{write_refresh_sessions, write_password_reset_tokens}
use visto_easy.Mongo.Refinement.Simulation.{Refines, Simulates, Simulates-guard}

pub revoke-ne :
    (now : Time) (by : String) (v : RefreshSession) → not v.revoked ≡ true → revoke now by v ≢ v
revoke-ne now by v live e =
    let q = ap (λ (x : RefreshSession). x.revoked) e in absurd (ground arith)

pub use-ne :
    (now : Time) (t : PasswordResetToken)
    → (ltb now t.expires_at && not (is_used t)) ≡ true
    → use_token now t ≢ t
use-ne now t live e = let q = ap is_used e in absurd (ground arith)

live-also :
    (t : PasswordResetToken) (now : Time)
    → t.expires_at ≢ now
    → (is_used t || after now t.expires_at) ≡ false
    → (ltb now t.expires_at && not (is_used t)) ≡ true
live-also t now apart live = ground arith

module _ {S : Type 0} (view : S → Tables) (db : MongoStore S) (h : Serves view db) (e : Env) (s : S)
    (m : MemoryStore) (r : Refines (view s) m) where
  Sessions : Tables → Dict RefreshSession → Type 0
  Sessions t d = Refines t (record m { refresh_sessions = d })

  Tokens : Tables → Dict PasswordResetToken → Type 0
  Tokens t d = Refines t (record m { password_reset_tokens = d })

  -- With an identifier that has no spaces around it: the database stores the trimmed one.
  pub create_refresh_session_lem :
      (q : RefreshSession)
      → trim_space q.id ≡ q.id
      → Simulates view (Mongo.create_refresh_session db e q s) (Memory.create_refresh_session e q m)
  unfolding Mongo.create_refresh_session Memory.create_refresh_session Sessions
  create_refresh_session_lem q trimmed =
      let q' = stored_session (e.now 0) q in
      let (n, answered, r') =
        upsert_lem h.refresh_sessions (λ (v : RefreshSession). v.id) s r.refresh_sessions Sessions
          (λ u l d' p k. write_refresh_sessions r p k) r q.id q' refl refl in
      rw trimmed (
        Simulates-guard view s m r _ (q.id == "")
          λ _. rw answered (record { replies = refl; refines = r' }))

  pub get_refresh_session_by_id_lem :
      (id : String)
      → Simulates view
          (Mongo.get_refresh_session_by_id db e id s)
          (Memory.get_refresh_session_by_id e id m)
  unfolding Mongo.get_refresh_session_by_id Memory.get_refresh_session_by_id Sessions
  get_refresh_session_by_id_lem id =
      let key = λ (v : RefreshSession). v.id in
      read_then h.refresh_sessions key s r.refresh_sessions (trim_space id) m r λ v at.
        elim (Bool-cases (after (e.now 0) v.expires_at)) [
          | inl dead ↦ rw dead (record {
            replies = refl;
            refines =
                (delete_lem h.refresh_sessions key s r.refresh_sessions Sessions
                  (λ u l d' p k. write_refresh_sessions r p k) r (trim_space id)).1;
          })
          | inr live ↦ rw live (record { replies = refl; refines = r })
        ]

  pub revoke_refresh_session_lem :
      (id replaced_by : String)
      → Simulates view
          (Mongo.revoke_refresh_session db e id replaced_by s)
          (Memory.revoke_refresh_session e id replaced_by m)
  unfolding Mongo.revoke_refresh_session Memory.revoke_refresh_session Sessions
  revoke_refresh_session_lem id replaced_by =
      let f = revoke (e.now 0) (trim_space replaced_by) in
      let (n, answered, count, r') =
        update_and_lem h.refresh_sessions (λ (v : RefreshSession). v.id) s r.refresh_sessions
          Sessions (λ u l d' p k. write_refresh_sessions r p k) r f (λ _. refl) (λ _. refl)
          (trim_space id) (λ v. not v.revoked) (revoke-ne (e.now 0) (trim_space replaced_by)) in
      rw answered (
        rw count (elim (Option-cases (lookup (trim_space id) m.refresh_sessions)) [
          | inl absent ↦ rw absent (record { replies = refl; refines = rw absent at r' })
          | inr (v, at) ↦ elim (Bool-cases v.revoked) [
            | inl old ↦ rw (at, old) (record { replies = refl; refines = rw (at, old) at r' })
            | inr live ↦ rw (at, live) (record { replies = refl; refines = rw (at, live) at r' })
          ]
        ]))

  pub create_password_reset_token_lem :
      (t : PasswordResetToken)
      → Simulates view
          (Mongo.create_password_reset_token db e t s)
          (Memory.create_password_reset_token e t m)
  unfolding Mongo.create_password_reset_token Memory.create_password_reset_token Tokens
  create_password_reset_token_lem t =
      let (n, answered, r') =
        upsert_lem h.password_reset_tokens (λ (v : PasswordResetToken). v.token) s
          r.password_reset_tokens Tokens (λ u l d' p k. write_password_reset_tokens r p k) r
          (trim_space t.token) (stored_token (trim_space t.token) (e.now 0) t) refl refl in
      Simulates-guard view s m r _ (trim_space t.token == "" || trim_space t.user_id == "")
        λ _. rw answered (record { replies = refl; refines = r' })

  -- At no instant that is the very end of the token, when memory.go still takes it.
  pub consume_password_reset_token_lem :
      (token : String)
      → ((t : PasswordResetToken)
          → lookup (trim_space token) m.password_reset_tokens ≡ some t
          → t.expires_at ≢ e.now 0)
      → Simulates view
          (Mongo.consume_password_reset_token db e token s)
          (Memory.consume_password_reset_token e token m)
  unfolding Mongo.consume_password_reset_token Memory.consume_password_reset_token Tokens
  consume_password_reset_token_lem token apart =
      let key = λ (v : PasswordResetToken). v.token in
      let tok = trim_space token in
      let write =
        λ (u : Tables) (l : List PasswordResetToken) (d' : Dict PasswordResetToken)
            (p : u ≡ record (view s) { password_reset_tokens = l }) (k : Keyed key l d').
          write_password_reset_tokens r p k in
      let also = λ (q : PasswordResetToken). ltb (e.now 0) q.expires_at && not (is_used q) in
      let (n, answered, count, r') =
        update_and_lem h.password_reset_tokens key s r.password_reset_tokens Tokens write r
          (use_token (e.now 0)) (λ _. refl) (λ _. refl) tok also (use-ne (e.now 0)) in
      let gone =
        (delete_lem h.password_reset_tokens key s r.password_reset_tokens Tokens write r tok).1 in
      read_then h.password_reset_tokens key s r.password_reset_tokens tok m r λ t at.
        elim (Bool-cases (is_used t || after (e.now 0) t.expires_at)) [
          | inl dead ↦ rw dead (record { replies = refl; refines = gone })
          | inr live ↦
              let good : also t ≡ true = live-also t (e.now 0) (apart t at) live in
              rw (live, answered, count, at, good)
                (record { replies = refl; refines = rw (at, good) at r' })
        ]
