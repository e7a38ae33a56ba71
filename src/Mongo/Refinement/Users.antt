-- ===== src/Mongo/Refinement/Users.antt =====
-- Users by identifier and the logs of internal/store/mongo.go, method by method against memory.go.
use visto_easy.Prelude.{
  Bool, false, ◌≡◌, refl, ap, inl, inr, String, List, [], ◌∷◌, ◌++◌, none, ◌==◌, ◌||◌, Option-cases,
  trim_space,
}
use visto_easy.Prelude.Clock.{Env}
use visto_easy.Prelude.Dict.{Dict, lookup}
use visto_easy.Model.{Utente, SecurityEvent, AuditEvent}
use visto_easy.Store.State.{MemoryStore}
use visto_easy.Store.Users as Memory
use visto_easy.Store.Events as MemoryEvents
use visto_easy.Store.Events.{id_or, time_or, find_security_event, find_audit_event}
use visto_easy.Mongo.Driver.{MongoStore}
use visto_easy.Mongo.Tables.{Tables, Serves, first}
use visto_easy.Mongo.Users as Mongo
use visto_easy.Mongo.Events as MongoEvents
use visto_easy.Mongo.Refinement.Keys.{update_lem}
use visto_easy.Mongo.Refinement.Writes.{write_users, write_security_events, write_audit_events}
use visto_easy.Mongo.Refinement.Simulation.{Refines, Simulates, Simulates-guard}

first-none : {D : Type 0} (ds : List D) → first (λ (d : D). false) ds ≡ none
unfolding first
first-none [] = refl
first-none (d ∷ ds) = first-none ds

module _ {S : Type 0} (view : S → Tables) (db : MongoStore S) (h : Serves view db) (s : S)
    (m : MemoryStore) (r : Refines (view s) m) where
  Users : Tables → Dict Utente → Type 0
  Users t d = Refines t (record m { users = d })

  -- A setter that keeps identifier and address.
  set_user_lem :
      (user : String) (f : Utente → Utente)
      → ((u : Utente) → (f u).id ≡ u.id)
      → ((u : Utente) → (f u).email ≡ u.email)
      → Simulates view (Mongo.set_user db (trim_space user) f s) (Memory.set_user user f m)
  unfolding Mongo.set_user Users
  set_user_lem user f same_id same_email =
      let (n, answered, count, r') =
        update_lem h.users (λ (u : Utente). u.id) s r.users Users (λ u l d' p k. write_users r p k)
          r f same_id (λ v. rw (same_email v) refl) (trim_space user) in
      rw answered (
        rw count (elim (Option-cases (lookup (trim_space user) m.users)) [
          | inl absent ↦ rw absent (record { replies = refl; refines = rw absent at r' })
          | inr (u, at) ↦ rw at (record { replies = refl; refines = rw at at r' })
        ]))

  module _ (e : Env) (user : String) where
    pub set_user_verification_state_lem :
        (attivo verificata : Bool)
        → Simulates view
            (Mongo.set_user_verification_state db e user attivo verificata s)
            (Memory.set_user_verification_state e user attivo verificata m)
    unfolding Mongo.set_user_verification_state Memory.set_user_verification_state
    set_user_verification_state_lem attivo verificata = set_user_lem user _ (λ _. refl) (λ _. refl)

    pub set_user_totp_secret_lem :
        (secret : String)
        → Simulates view
            (Mongo.set_user_totp_secret db e user secret s)
            (Memory.set_user_totp_secret e user secret m)
    unfolding Mongo.set_user_totp_secret Memory.set_user_totp_secret
    set_user_totp_secret_lem secret = set_user_lem user _ (λ _. refl) (λ _. refl)

    pub set_user_totp_enabled_lem :
        (enabled : Bool)
        → Simulates view
            (Mongo.set_user_totp_enabled db e user enabled s)
            (Memory.set_user_totp_enabled e user enabled m)
    unfolding Mongo.set_user_totp_enabled Memory.set_user_totp_enabled
    set_user_totp_enabled_lem enabled = set_user_lem user _ (λ _. refl) (λ _. refl)

    pub update_user_password_lem :
        (hash : String)
        → Simulates view
            (Mongo.update_user_password db e user hash s)
            (Memory.update_user_password e user hash m)
    unfolding Mongo.update_user_password Memory.update_user_password
    update_user_password_lem hash =
        Simulates-guard view s m r _ (trim_space user == "" || trim_space hash == "")
          λ _. set_user_lem user _ (λ _. refl) (λ _. refl)

  pub add_security_event_lem :
      (e : Env) (evt : SecurityEvent)
      → Simulates view
          (MongoEvents.add_security_event db e evt s)
          (MemoryEvents.add_security_event e evt m)
  unfolding MongoEvents.add_security_event MemoryEvents.add_security_event
  add_security_event_lem e evt =
      let evt' = record evt {
        id = id_or evt.id (e.uuid 0);
        creato_il = time_or evt.creato_il (e.now 0);
      } in
      let (inserted, after') =
        h.security_events.insert_one_fresh evt' s (first-none (view s).security_events) in
      Simulates-guard view s m r _ (trim_space evt.type == "") λ _. rw inserted (record {
        replies = refl;
        refines = write_security_events r after' (ap (λ l. l ++ evt' ∷ []) r.security_events);
      })

  pub add_audit_event_lem :
      (e : Env) (evt : AuditEvent)
      → Simulates view
          (MongoEvents.add_audit_event db e evt s)
          (MemoryEvents.add_audit_event e evt m)
  unfolding MongoEvents.add_audit_event MemoryEvents.add_audit_event
  add_audit_event_lem e evt =
      let evt' = record evt {
        id = id_or evt.id (e.uuid 0);
        creato_il = time_or evt.creato_il (e.now 0);
      } in
      let (inserted, after') =
        h.audit_events.insert_one_fresh evt' s (first-none (view s).audit_events) in
      Simulates-guard view s m r _ (trim_space evt.action == "" || trim_space evt.resource == "")
        λ _. rw inserted (record {
          replies = refl;
          refines = write_audit_events r after' (ap (λ l. l ++ evt' ∷ []) r.audit_events);
        })
