-- ===== src/Http/Reply.antt =====
-- What the handlers of internal/httpapi/server.go share: the claims of the caller, the replies,
-- and the events that they log.
use visto_easy.Prelude.{ℕ, String, List, Option, on_some, trim_space}
use visto_easy.Prelude.Clock.{Time, Env}
use visto_easy.Model.{
  Fields, end, Utente, Documento, EventoPratica, Pratica, Pagamento, RefreshSession, BlockedIp,
  AllowedIp, SecurityEvent, AuditEvent,
}
use visto_easy.Store.State.{MemoryStore}
use visto_easy.Store.Events.{add_security_event, add_audit_event}

-- `auth.Claims`, with the registered claims that the program sets.
pub record Claims : Type 0 where
  pub user_id : String
  pub role : String
  pub type : String
  pub id : String
  pub expires_at : Time
  pub issued_at : Time

-- The bodies that `writeErr` and `writeJSON` send.
pub data Body : Type 0 where
  no_body : Body
  error_body : String → Body
  retry_body : String → ℕ → Body
  status_body : String → Fields → Body
  login_body : String → String → Utente → Body
  tokens_body : String → String → Body
  user_body : Utente → Time → Body
  secret_body : String → String → Body
  pratica_body : Pratica → Body
  pratiche_body : List Pratica → Body
  documento_body : Documento → Body
  created_documento_body : Documento → String → Body
  documenti_body : List Documento → Body
  eventi_body : List EventoPratica → Body
  upload_body : String → Body
  redirect_body : String → Body
  payment_body : Pagamento → Body
  refund_body : Pagamento → Body
  sessions_body : List RefreshSession → Body
  blocked_body : BlockedIp → Body
  allowed_body : AllowedIp → Body
  blocked_list_body : List BlockedIp → ℕ → Body
  allowed_list_body : List AllowedIp → ℕ → Body
  removal_body : List String → List String → List String → Body
  invited_body : Utente → String → Time → Body

pub record Reply : Type 0 where
  pub status : ℕ
  pub body : Body

-- `writeJSON(w, status, v)`
abbrev pub write_json : ℕ → Body → Reply
write_json status body = record { status = status; body = body }

-- `writeErr(w, status, msg)`
abbrev pub write_err : ℕ → String → Reply
write_err status msg = write_json status (error_body msg)

-- The reply of `decodeJSON` to a body that it does not decode.
abbrev pub undecoded : Reply
undecoded = write_err 400 "payload non valido"

-- The store and the reply that a handler leaves.
abbrev pub Served : Type 0
Served = MemoryStore × Reply

-- Where a request comes from: `clientIP(r)`, and `strings.TrimSpace(r.UserAgent())`.
pub record Client : Type 0 where
  pub ip : String
  pub user_agent : String

-- `s.recordSecurityEvent(evt)`, whose error is dropped.
unfoldable pub record_security_event : Env → SecurityEvent → MemoryStore → MemoryStore
record_security_event e evt s = (add_security_event e evt s).0

-- `_, _ = s.store.AddAuditEvent(evt)`
unfoldable pub add_audit : Env → AuditEvent → MemoryStore → MemoryStore
add_audit e evt s = (add_audit_event e evt s).0

-- `model.SecurityEvent{Type: …, Outcome: …}`
abbrev pub security_event : String → String → SecurityEvent
security_event type outcome = record {
  id = "";
  type = type;
  outcome = outcome;
  email = "";
  user_id = "";
  ip = "";
  user_agent = "";
  metadata = end;
  creato_il = 0;
}

-- `model.AuditEvent{Action: …, Resource: …}`
abbrev pub audit_event : String → String → AuditEvent
audit_event action resource = record {
  id = "";
  actor_id = "";
  actor_role = "";
  action = action;
  resource = resource;
  resource_id = "";
  ip = "";
  details = end;
  creato_il = 0;
}

-- `s.recordAuditEvent(r, claims, action, resource, resourceID, details)`: nothing without claims.
unfoldable pub record_audit_event :
    Env → Client → Option Claims → String → String → String → Fields → MemoryStore → MemoryStore
record_audit_event e client claims action resource resource_id details s = on_some claims s λ c.
    (add_audit_event e
      (record (audit_event (trim_space action) (trim_space resource)) {
        actor_id = c.user_id;
        actor_role = c.role;
        resource_id = trim_space resource_id;
        ip = client.ip;
        details = details;
      })
      s).0
