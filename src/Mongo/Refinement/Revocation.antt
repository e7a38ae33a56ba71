-- ===== src/Mongo/Refinement/Revocation.antt =====
-- RevokeAllRefreshSessionsByUser of internal/store/mongo.go against that of memory.go.
use visto_easy.Prelude.{
  ℕ, Bool, true, false, not, ◌≡◌, refl, ap, inl, inr, String, List, [], ◌∷◌, none, ◌==◌, ◌&&◌, ◌<◌,
  arith, eq_of_==, Bool-cases, trim_space, ltb, length, All,
}
use visto_easy.Prelude.Clock.{Env, Time, after}
use visto_easy.Prelude.Dict.{Dict, lookup, values, IsMap}
use visto_easy.Model.{RefreshSession}
use visto_easy.Store.State.{MemoryStore, ok}
use visto_easy.Store.Sessions as Memory
use visto_easy.Store.Sessions.{revoke, revoke_all}
use visto_easy.Mongo.Driver.{MongoStore}
use visto_easy.Mongo.Tables.{Tables, Serves, select, update_all}
use visto_easy.Mongo.Sessions as Mongo
use visto_easy.Mongo.Refinement.Keyed.{AreKeyed}
use visto_easy.Mongo.Refinement.Sessions.{revoke-ne}
use visto_easy.Mongo.Refinement.Writes.{write_refresh_sessions}
use visto_easy.Mongo.Refinement.Simulation.{Refines, Simulates}

-- If the session is the user's, it has not come to its end.
abbrev pub IsLive : Time → String → RefreshSession → Type 0
IsLive now user r = r.user_id ≡ user → now < r.expires_at

module _ (now : Time) (user : String) where
  abbrev hit : RefreshSession → Bool
  hit r = r.user_id == user && not r.revoked && ltb now r.expires_at

  abbrev shut : RefreshSession → RefreshSession
  shut = revoke now "admin_bulk_revoke"

  still_absent :
      (k : String) (d : Dict RefreshSession)
      → lookup k d ≡ none
      → lookup k (revoke_all now user d).0 ≡ none
  unfolding revoke_all lookup
  still_absent k [] h = refl
  still_absent k ((j, r) ∷ d) h = ground (arith, still_absent k d)

  -- What the loop makes of a map, of whose sessions of the user none has ended.
  record Revokes (o : Dict RefreshSession × ℕ) (docs : List RefreshSession) (n : ℕ) : Type 0 where
    keyed : AreKeyed (λ (r : RefreshSession). r.id) o.0
    is_map : IsMap o.0
    updated : docs ≡ values o.0
    count : n ≡ o.1

  revoke_all-Revokes :
      (d : Dict RefreshSession)
      → AreKeyed (λ (r : RefreshSession). r.id) d
      → IsMap d
      → All (IsLive now user) (values d)
      → Revokes
          (revoke_all now user d)
          (update_all hit shut (values d))
          (length (select hit (values d)))
  unfolding revoke_all lookup values update_all select
  revoke_all-Revokes [] k i live = record { keyed = tt; is_map = tt; updated = refl; count = refl }
  revoke_all-Revokes ((j, r) ∷ d) (k, ks) (i, is) (live, lives) =
      let rest = revoke_all-Revokes d ks is lives in
      let gone = still_absent j d i in
      let kept : (q : RefreshSession)
          → q.id ≡ j
          → Revokes ((j, q) ∷ (revoke_all now user d).0, (revoke_all now user d).1)
              (q ∷ update_all hit shut (values d)) (length (select hit (values d))) =
        λ q e. record {
          keyed = (e, rest.keyed);
          is_map = (gone, rest.is_map);
          updated = ap (λ l. q ∷ l) rest.updated;
          count = rest.count;
        } in
      elim (Bool-cases (r.user_id == user)) [
        | inr other ↦ rw other (kept r k)
        | inl own ↦
            let lasting : ltb now r.expires_at ≡ true =
              let h = live (eq_of_== r.user_id user own) in ground arith in
            let lasts : after now r.expires_at ≡ false = ground arith in
            elim (Bool-cases r.revoked) [
              | inl old ↦ rw (own, lasting, lasts, old) (kept _ k)
              | inr open_ ↦
                  rw (own, lasting, lasts, open_)
                    (record {
                      keyed = (k, rest.keyed);
                      is_map = (gone, rest.is_map);
                      updated = ap (λ l. shut r ∷ l) rest.updated;
                      count = omega (arith, rest.count);
                    })
            ]
      ]

module _ {S : Type 0} (view : S → Tables) (db : MongoStore S) (h : Serves view db) (e : Env) (s : S)
    (m : MemoryStore) (r : Refines (view s) m) where
  -- At no instant at or after the end of one of the user's sessions: memory.go takes those that
  -- have ended out of its map.
  pub revoke_all_refresh_sessions_by_user_lem :
      (user : String)
      → All (IsLive (e.now 0) (trim_space user)) (values m.refresh_sessions)
      → let o = Memory.revoke_all_refresh_sessions_by_user e user m in
        Simulates view (Mongo.revoke_all_refresh_sessions_by_user db e user s) (o.0, ok o.1)
  unfolding Mongo.revoke_all_refresh_sessions_by_user Memory.revoke_all_refresh_sessions_by_user
  revoke_all_refresh_sessions_by_user_lem user live =
      let now = e.now 0 in
      let user' = trim_space user in
      let k = r.refresh_sessions in
      let done' = revoke_all-Revokes now user' m.refresh_sessions k.keyed k.is_map live in
      let (after', (n, answered)) =
        h.refresh_sessions.update_many_lem (hit now user') (shut now user') s
          (λ q hits. revoke-ne now "admin_bulk_revoke" q (ground arith)) (λ _. refl) in
      rw (answered, k.same, done'.count)
        (record {
          replies = refl;
          refines =
              write_refresh_sessions r (rw k.same at after')
                (record { same = done'.updated; keyed = done'.keyed; is_map = done'.is_map });
        })
