-- ===== src/Http/IpRules/Allowed.antt =====
-- internal/httpapi/server.go: the handlers of allowed addresses.
use visto_easy.Prelude.{not, String, [], Option, none, some, if◌then◌else◌, on_some, ltb, length}
use mathlib.Core.List.{map}
use visto_easy.Prelude.Clock.{after_minutes, Env, skip}
use visto_easy.Model.{str, end, field, AllowedIp}
use visto_easy.Store.State.{MemoryStore, on_result}
use visto_easy.Store.Ips.{upsert_allowed_ip, remove_allowed_ip, list_allowed_ips}
use visto_easy.Http.Reply.{
  Claims, Served, write_json, write_err, undecoded, status_body, allowed_body, allowed_list_body,
  removal_body,
}
use visto_easy.Http.IpPolicy.{NetSyntax}
use visto_easy.Http.IpRules.{
  NetText, RuleSettings, RuleRequest, BulkRequest, normalize_block_target, effective_ttl, reason_or,
  rule_event, set_event, ttl_or, remove_targets,
}

module _ (net : NetSyntax) (text : NetText) where
  unfoldable pub handle_bo_list_allowed_ips : Env → MemoryStore → Served
  handle_bo_list_allowed_ips e s =
      let (s', items) = list_allowed_ips e s in
      (s', write_json 200 (allowed_list_body items (length items)))

  unfoldable pub handle_bo_allow_ip :
      RuleSettings → Env → Claims → Option RuleRequest → MemoryStore → Served
  unfolding normalize_block_target
  handle_bo_allow_ip settings e c body s =
      on_some body (s, undecoded)
        λ req.
          on_some (normalize_block_target net text req.ip)
            (s, write_err 400 "target non valido (usa IP o CIDR)")
            λ target.
              let reason = reason_or req.reason "manual_allow" in
              let ttl = effective_ttl req.ttl_minutes settings.allow_ttl in
              let entry : AllowedIp = record {
                ip = target;
                reason = reason;
                allowed_by = c.user_id;
                allowed_at = e.now 0;
                expires_at = if ltb 0 ttl then some (after_minutes (e.now 0) ttl) else none;
              } in
              let (s', r) = upsert_allowed_ip (skip 1 e) entry s in
              on_result r (λ _. (s', write_err 500 "errore salvataggio allowlist"))
                λ stored. (
                  set_event (skip 2 e) c "IP_ALLOWED" target reason
                      (ttl_or req.ttl_minutes settings.allow_ttl) s',
                  write_json 200 (allowed_body stored),
                )

  unfoldable pub handle_bo_revoke_allowed_ip : Env → Claims → Option String → MemoryStore → Served
  unfolding normalize_block_target
  handle_bo_revoke_allowed_ip e c body s =
      on_some body (s, undecoded)
        λ raw.
          on_some (normalize_block_target net text raw)
            (s, write_err 400 "target non valido (usa IP o CIDR)")
            λ target.
              let (s', r) = remove_allowed_ip target s in
              on_result r (λ _. (s', write_err 500 "errore aggiornamento allowlist"))
                λ removed.
                  if not removed then (s', write_err 404 "target non presente in allowlist") else (
                    rule_event e c "IP_ALLOW_REVOKED" "manual" target s',
                    write_json 200 (status_body "revoked" (field "ip" (str target) end)),
                  )

  unfoldable pub handle_bo_revoke_allowed_ip_bulk :
      Env → Claims → Option BulkRequest → MemoryStore → Served
  unfolding remove_targets
  handle_bo_revoke_allowed_ip_bulk e c body s =
      on_some body (s, undecoded)
        λ req.
          let (s1, items) = list_allowed_ips e s in
          let s' = if req.all then s1 else s in
          let targets = if req.all then map (λ (b : AllowedIp). b.ip) items else req.targets in
          let (s2, r) =
            remove_targets (normalize_block_target net text) remove_allowed_ip "IP_ALLOW_REVOKED" c
              (skip 1 e) targets (record { removed = []; not_found = []; invalid = [] }) s' in
          on_some r (s2, write_err 500 "errore aggiornamento allowlist")
            λ done'. (s2, write_json 200 (removal_body done'.removed done'.not_found done'.invalid))
