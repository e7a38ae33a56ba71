-- ===== src/Mongo/Refinement/Writes.antt =====
-- A write to one table and to its map keeps the rest of the correspondence.
use visto_easy.Prelude.{◌≡◌, List, arith}
use visto_easy.Prelude.Dict.{Dict}
use visto_easy.Model.{
  Utente, Pratica, Pagamento, RefreshSession, PasswordResetToken, BlockedIp, AllowedIp,
  SecurityEvent, AuditEvent,
}
use visto_easy.Store.State.{MemoryStore}
use visto_easy.Mongo.Tables.{Tables}
use visto_easy.Mongo.Refinement.Keyed.{Keyed}
use visto_easy.Mongo.Refinement.Tokens.{HaveTokens}
use visto_easy.Mongo.Refinement.Simulation.{Refines}

module _ {t u : Tables} {m : MemoryStore} (r : Refines t m) where
  pub write_users :
      {l : List Utente} {d : Dict Utente}
      → u ≡ record t { users = l }
      → Keyed (λ (u : Utente). u.id) l d
      → Refines u (record m { users = d })
  write_users e k = rw e (ground arith)

  pub write_pratiche :
      {l : List Pratica} {d : Dict Pratica}
      → u ≡ record t { pratiche = l }
      → Keyed (λ (p : Pratica). p.id) l d
      → Refines u (record m { pratiche = d })
  write_pratiche e k = rw e (ground arith)

  pub write_pagamenti :
      {l : List Pagamento} {d : Dict Pagamento}
      → u ≡ record t { pagamenti = l }
      → Keyed (λ (p : Pagamento). p.id) l d
      → HaveTokens l
      → Refines u (record m { payments = d })
  write_pagamenti e k n = rw e (ground arith)

  pub write_refresh_sessions :
      {l : List RefreshSession} {d : Dict RefreshSession}
      → u ≡ record t { refresh_sessions = l }
      → Keyed (λ (r : RefreshSession). r.id) l d
      → Refines u (record m { refresh_sessions = d })
  write_refresh_sessions e k = rw e (ground arith)

  pub write_password_reset_tokens :
      {l : List PasswordResetToken} {d : Dict PasswordResetToken}
      → u ≡ record t { password_reset_tokens = l }
      → Keyed (λ (p : PasswordResetToken). p.token) l d
      → Refines u (record m { password_reset_tokens = d })
  write_password_reset_tokens e k = rw e (ground arith)

  pub write_blocked_ips :
      {l : List BlockedIp} {d : Dict BlockedIp}
      → u ≡ record t { blocked_ips = l }
      → Keyed (λ (b : BlockedIp). b.ip) l d
      → Refines u (record m { blocked_ips = d })
  write_blocked_ips e k = rw e (ground arith)

  pub write_allowed_ips :
      {l : List AllowedIp} {d : Dict AllowedIp}
      → u ≡ record t { allowed_ips = l }
      → Keyed (λ (a : AllowedIp). a.ip) l d
      → Refines u (record m { allowed_ips = d })
  write_allowed_ips e k = rw e (ground arith)

  pub write_security_events :
      {l d : List SecurityEvent}
      → u ≡ record t { security_events = l }
      → l ≡ d
      → Refines u (record m { security_events = d })
  write_security_events e k = rw e (ground arith)

  pub write_audit_events :
      {l d : List AuditEvent}
      → u ≡ record t { audit_events = l }
      → l ≡ d
      → Refines u (record m { audit_events = d })
  write_audit_events e k = rw e (ground arith)
