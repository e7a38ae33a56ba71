-- ===== src/Http/IpRules/Blocked.antt =====
-- internal/httpapi/server.go: the decision on an address, and the handlers of blocked addresses.
use visto_easy.Prelude.{
  not, String, [], Option, none, some, ◌==◌, if◌then◌else◌, on_some, trim_space, ltb, length, ◌⊎◌,
  inl, inr,
}
use mathlib.Core.List.{map}
use visto_easy.Prelude.Clock.{after_minutes, Env, skip}
use visto_easy.Model.{str, end, field, BlockedIp}
use visto_easy.Store.State.{MemoryStore, on_result}
use visto_easy.Store.Ips.{upsert_blocked_ip, remove_blocked_ip, list_blocked_ips}
use visto_easy.Http.Reply.{
  Claims, Client, Reply, Served, write_json, write_err, undecoded, status_body, blocked_body,
  blocked_list_body, removal_body,
}
use visto_easy.Http.IpPolicy.{NetSyntax, IpPolicyDecision, evaluate_client_ip_policy}
use visto_easy.Http.IpRules.{
  NetText, RuleSettings, RuleRequest, BulkRequest, normalize_ip_address, normalize_block_target,
  effective_ttl, reason_or, rule_event, set_event, ttl_or, remove_targets,
}

module _ (net : NetSyntax) (text : NetText) where
  -- The reply is the address with the decision.
  unfoldable pub handle_bo_evaluate_ip :
      Env → Client → String → MemoryStore → MemoryStore × (Reply ⊎ (String × IpPolicyDecision))
  handle_bo_evaluate_ip e client query s =
      let input = if trim_space query == "" then client.ip else trim_space query in
      on_some (normalize_ip_address net text input) (s, inl (write_err 400 "ip non valido"))
        λ ip. let (s', decision) = evaluate_client_ip_policy net e ip s in (s', inr (ip, decision))

  unfoldable pub handle_bo_list_blocked_ips : Env → MemoryStore → Served
  handle_bo_list_blocked_ips e s =
      let (s', items) = list_blocked_ips e s in
      (s', write_json 200 (blocked_list_body items (length items)))

  unfoldable pub handle_bo_block_ip :
      RuleSettings → Env → Claims → Option RuleRequest → MemoryStore → Served
  unfolding normalize_block_target
  handle_bo_block_ip settings e c body s =
      on_some body (s, undecoded)
        λ req.
          on_some (normalize_block_target net text req.ip)
            (s, write_err 400 "target non valido (usa IP o CIDR)")
            λ target.
              let reason = reason_or req.reason "manual_block" in
              let ttl = effective_ttl req.ttl_minutes settings.block_ttl in
              let entry : BlockedIp = record {
                ip = target;
                reason = reason;
                blocked_by = c.user_id;
                blocked_at = e.now 0;
                expires_at = if ltb 0 ttl then some (after_minutes (e.now 0) ttl) else none;
              } in
              let (s', r) = upsert_blocked_ip (skip 1 e) entry s in
              on_result r (λ _. (s', write_err 500 "errore salvataggio denylist"))
                λ stored. (
                  set_event (skip 2 e) c "IP_BLOCKED" target reason
                      (ttl_or req.ttl_minutes settings.block_ttl) s',
                  write_json 200 (blocked_body stored),
                )

  unfoldable pub handle_bo_unblock_ip : Env → Claims → Option String → MemoryStore → Served
  unfolding normalize_block_target
  handle_bo_unblock_ip e c body s =
      on_some body (s, undecoded)
        λ raw.
          on_some (normalize_block_target net text raw)
            (s, write_err 400 "target non valido (usa IP o CIDR)")
            λ target.
              let (s', r) = remove_blocked_ip target s in
              on_result r (λ _. (s', write_err 500 "errore aggiornamento denylist"))
                λ removed.
                  if not removed then (s', write_err 404 "ip non presente in denylist") else (
                    rule_event e c "IP_UNBLOCKED" "manual" target s',
                    write_json 200 (status_body "unblocked" (field "ip" (str target) end)),
                  )

  unfoldable pub handle_bo_unblock_ip_bulk :
      Env → Claims → Option BulkRequest → MemoryStore → Served
  unfolding remove_targets
  handle_bo_unblock_ip_bulk e c body s =
      on_some body (s, undecoded)
        λ req.
          let (s1, items) = list_blocked_ips e s in
          let s' = if req.all then s1 else s in
          let targets = if req.all then map (λ (b : BlockedIp). b.ip) items else req.targets in
          let (s2, r) =
            remove_targets (normalize_block_target net text) remove_blocked_ip "IP_UNBLOCKED" c
              (skip 1 e) targets (record { removed = []; not_found = []; invalid = [] }) s' in
          on_some r (s2, write_err 500 "errore aggiornamento denylist")
            λ done'. (s2, write_json 200 (removal_body done'.removed done'.not_found done'.invalid))
