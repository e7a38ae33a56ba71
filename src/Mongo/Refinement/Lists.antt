-- ===== src/Mongo/Refinement/Lists.antt =====
-- The lists of pratiche of the two stores of internal/store: the same pratiche, latest first in
-- both, while the order of equal times is each store's own.
use mathlib.Core.List.{Perm}
use mathlib.Core.List.Perm
use visto_easy.Prelude.{
  Bool, true, false, not, ◌≡◌, refl, ap, inl, inr, String, List, [], ◌∷◌, none, ◌==◌, ◌&&◌, arith,
  Bool-cases, length, trim_space, ltb,
}
use visto_easy.Prelude.Clock.{Env, Time}
use visto_easy.Prelude.Dict.{values}
use visto_easy.Model.{Pratica, RefreshSession}
use visto_easy.Store.State.{MemoryStore}
use visto_easy.Store.Order.{IsLatestFirst, latest_first-perm}
use visto_easy.Store.Pratiche as Memory
use visto_easy.Store.Pratiche.{of_user}
use visto_easy.Store.Sessions.{revoke}
use visto_easy.Mongo.Driver.{MongoStore, done, list_by}
use visto_easy.Mongo.Tables.{Tables, Serves, select, update_all}
use visto_easy.Mongo.Pratiche as Mongo
use visto_easy.Mongo.Sessions.{revoke_all_refresh_sessions_by_user}
use visto_easy.Mongo.Refinement.Sessions.{revoke-ne}
use visto_easy.Mongo.Refinement.Simulation.{Refines}

select-of_user :
    (user : String) (ps : List Pratica) → select (λ p. p.utente_id == user) ps ≡ of_user user ps
unfolding select of_user
select-of_user user [] = refl
select-of_user user (p ∷ ps) = rw (select-of_user user ps) refl

pub select-all : {D : Type 0} (ds : List D) → select (λ (d : D). true) ds ≡ ds
unfolding select
select-all [] = refl
select-all (d ∷ ds) = ap (λ l. d ∷ l) (select-all ds)

memory_by_user :
    (m : MemoryStore) (user : String)
    → Perm (of_user user (values m.pratiche)) (Memory.list_pratiche_by_user user m)
unfolding Memory.list_pratiche_by_user
memory_by_user m user = Perm.symm (latest_first-perm (λ (p : Pratica). p.creato_il) _)

memory_all : (m : MemoryStore) → Perm (values m.pratiche) (Memory.list_all_pratiche m)
unfolding Memory.list_all_pratiche
memory_all m = Perm.symm (latest_first-perm (λ (p : Pratica). p.creato_il) _)

-- An update that takes a document out of a filter's reach leaves none that it matches.
select-update_all :
    {D : Type 0} (q : D → Bool) (f : D → D) (ds : List D)
    → ((d : D) → q (f d) ≡ false)
    → select q (update_all q f ds) ≡ []
unfolding select update_all
select-update_all q f [] h = refl
select-update_all q f (d ∷ ds) h = elim (Bool-cases (q d)) [
  | inl hit ↦ rw hit (rw (h d) (select-update_all q f ds h))
  | inr miss ↦ rw miss (rw miss (select-update_all q f ds h))
]

-- The sessions that a revocation of a user's sessions is about.
abbrev pub live_sessions : Time → String → Tables → List RefreshSession
live_sessions now user t =
    select
      (λ (r : RefreshSession).
        r.user_id == trim_space user && not r.revoked && ltb now r.expires_at)
      t.refresh_sessions

module _ {S : Type 0} (view : S → Tables) (db : MongoStore S) (h : Serves view db) (s : S) where
  -- The two stores list the same pratiche. From contents that correspond, what the database lists
  -- for a user, and as all pratiche, are the pratiche that the memory lists, each as often, and
  -- latest first.
  pub list_pratiche-perm :
      (m : MemoryStore) (user : String)
      → Refines (view s) m
      → let time = λ (p : Pratica). p.creato_il in
        Perm (Mongo.list_pratiche_by_user db user s) (Memory.list_pratiche_by_user user m)
        × IsLatestFirst time (Mongo.list_pratiche_by_user db user s)
        × Perm (Mongo.list_all_pratiche db s) (Memory.list_all_pratiche m)
        × IsLatestFirst time (Mongo.list_all_pratiche db s)
  unfolding Mongo.list_pratiche_by_user Mongo.list_all_pratiche list_by
  list_pratiche-perm m user r =
      let time = λ (p : Pratica). p.creato_il in
      let (own, perm, sorted, answered) =
        h.pratiche.find_lem (λ p. p.utente_id == user) time none s in
      let (all, perm', sorted', answered') = h.pratiche.find_lem (λ _. true) time none s in
      rw (answered, answered')
        (
          Perm.trans (rw (select-of_user user (view s).pratiche, r.pratiche.same) at perm)
              (memory_by_user m user),
          sorted,
          Perm.trans (rw (select-all (view s).pratiche, r.pratiche.same) at perm') (memory_all m),
          sorted',
        )

  -- In the database, RevokeAllRefreshSessionsByUser leaves the user, by an identifier with spaces
  -- around it or without, no session that is neither revoked nor at its end, and returns how many
  -- such sessions there were.
  pub revoke_all_refresh_sessions_by_user-live :
      (e : Env) (user : String)
      → let o = revoke_all_refresh_sessions_by_user db e user s in
        (o.1 ≡ done (length (live_sessions (e.now 0) user (view s))))
        × (live_sessions (e.now 0) user (view o.0) ≡ [])
  unfolding revoke_all_refresh_sessions_by_user
  revoke_all_refresh_sessions_by_user-live e user =
      let q = λ (r : RefreshSession).
        r.user_id == trim_space user && not r.revoked && ltb (e.now 0) r.expires_at in
      let f = revoke (e.now 0) "admin_bulk_revoke" in
      let (after', (n, answered)) =
        h.refresh_sessions.update_many_lem q f s
          (λ r hit. revoke-ne (e.now 0) "admin_bulk_revoke" r (ground arith)) (λ _. refl) in
      rw answered
        (refl, rw after' (select-update_all q f (view s).refresh_sessions (λ r. ground arith)))
