-- ===== src/Store/Events.antt =====
-- internal/store/memory.go: the logs of security and audit events.
use visto_easy.Prelude.{◌||◌, String, List, [], ◌∷◌, ◌++◌, ◌==◌, if◌then◌else◌, trim_space}
use visto_easy.Prelude.Clock.{Time, Env, is_zero}
use visto_easy.Model.{SecurityEvent, AuditEvent}
use visto_easy.Store.State.{MemoryStore, Outcome, Result, ok, err, not_found, forbidden_state}
use visto_easy.Store.Order.{latest_first}

-- `if strings.TrimSpace(id) == "" { id = uuid.NewString() }`
abbrev pub id_or : String → String → String
id_or id uuid = if trim_space id == "" then uuid else id

-- `if t.IsZero() { t = time.Now().UTC() }`
abbrev pub time_or : Time → Time → Time
time_or t now = if is_zero t then now else t

unfoldable pub add_security_event : Env → SecurityEvent → MemoryStore → Outcome SecurityEvent
add_security_event e evt s =
    let evt' = record evt {
      id = id_or evt.id (e.uuid 0);
      creato_il = time_or evt.creato_il (e.now 0);
    } in
    if trim_space evt.type == ""
    then (s, err forbidden_state)
    else (record s { security_events = s.security_events ++ evt' ∷ [] }, ok evt')

unfoldable pub list_security_events : MemoryStore → List SecurityEvent
list_security_events s = latest_first (λ (v : SecurityEvent). v.creato_il) s.security_events

-- The loop of `GetSecurityEventByID`.
unfoldable pub find_security_event : String → List SecurityEvent → Result SecurityEvent
find_security_event id [] = err not_found
find_security_event id (v ∷ vs) = if v.id == id then ok v else find_security_event id vs

unfoldable pub get_security_event_by_id : String → MemoryStore → Result SecurityEvent
unfolding find_security_event
get_security_event_by_id id s = find_security_event id s.security_events

unfoldable pub add_audit_event : Env → AuditEvent → MemoryStore → Outcome AuditEvent
add_audit_event e evt s =
    let evt' = record evt {
      id = id_or evt.id (e.uuid 0);
      creato_il = time_or evt.creato_il (e.now 0);
    } in
    if trim_space evt.action == "" || trim_space evt.resource == ""
    then (s, err forbidden_state)
    else (record s { audit_events = s.audit_events ++ evt' ∷ [] }, ok evt')

unfoldable pub list_audit_events : MemoryStore → List AuditEvent
list_audit_events s = latest_first (λ (v : AuditEvent). v.creato_il) s.audit_events

-- The loop of `GetAuditEventByID`.
unfoldable pub find_audit_event : String → List AuditEvent → Result AuditEvent
find_audit_event id [] = err not_found
find_audit_event id (v ∷ vs) = if v.id == id then ok v else find_audit_event id vs

unfoldable pub get_audit_event_by_id : String → MemoryStore → Result AuditEvent
unfolding find_audit_event
get_audit_event_by_id id s = find_audit_event id s.audit_events
