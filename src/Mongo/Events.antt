-- ===== src/Mongo/Events.antt =====
-- internal/store/mongo.go: the logs of security and audit events.
use visto_easy.Prelude.{true, ◌||◌, String, List, some, ◌==◌, if◌then◌else◌, trim_space}
use visto_easy.Prelude.Clock.{Env}
use visto_easy.Model.{SecurityEvent, AuditEvent}
use visto_easy.Store.State.{forbidden_state}
use visto_easy.Store.Events.{id_or, time_or}
use visto_easy.Mongo.Driver.{MongoStore, Reply, done, refused, fault, on_answer, find_by, list_by}

module _ {S : Type 0} (db : MongoStore S) where
  unfoldable pub add_security_event : Env → SecurityEvent → S → S × Reply SecurityEvent
  add_security_event e evt s =
      let evt' = record evt {
        id = id_or evt.id (e.uuid 0);
        creato_il = time_or evt.creato_il (e.now 0);
      } in
      let (s', inserted) = db.security_events.insert_one evt' s in
      if trim_space evt.type == ""
      then (s, refused forbidden_state)
      else on_answer inserted (s', fault) λ _. (s', done evt')

  unfoldable pub list_security_events : S → List SecurityEvent
  unfolding list_by
  list_security_events = list_by db.security_events (λ _. true) (λ v. v.creato_il) (some 1000)

  unfoldable pub get_security_event_by_id : String → S → Reply SecurityEvent
  get_security_event_by_id id = find_by db.security_events λ v. v.id == id

  unfoldable pub add_audit_event : Env → AuditEvent → S → S × Reply AuditEvent
  add_audit_event e evt s =
      let evt' = record evt {
        id = id_or evt.id (e.uuid 0);
        creato_il = time_or evt.creato_il (e.now 0);
      } in
      let (s', inserted) = db.audit_events.insert_one evt' s in
      if trim_space evt.action == "" || trim_space evt.resource == ""
      then (s, refused forbidden_state)
      else on_answer inserted (s', fault) λ _. (s', done evt')

  unfoldable pub list_audit_events : S → List AuditEvent
  unfolding list_by
  list_audit_events = list_by db.audit_events (λ _. true) (λ v. v.creato_il) (some 2000)

  unfoldable pub get_audit_event_by_id : String → S → Reply AuditEvent
  get_audit_event_by_id id = find_by db.audit_events λ v. v.id == id
