-- ===== src/Http/Gate.antt =====
-- internal/httpapi/server.go: authRateLimitMiddleware, the gate in front of the endpoints that
-- authenticate.
use Prim.Native.Nat.{◌/◌}
use visto_easy.Prelude.{not, String, Option, none, some, ◌==◌, if◌then◌else◌, on_some}
use visto_easy.Prelude.Int.{pos}
use visto_easy.Prelude.Clock.{Time, Env, skip, second, format_rfc3339}
use visto_easy.Model.{Fields, str, int, end, field}
use visto_easy.Http.RateLimit.{allow}
use visto_easy.Http.IpPolicy.{NetSyntax, evaluate_client_ip_policy}
use visto_easy.Http.Reply.{Client, Reply, write_json, write_err, security_event, retry_body}
use visto_easy.Http.Auth.{Server, logged}

-- `formatOptTime(t)`
abbrev format_opt_time : Option Time → String
format_opt_time none = ""
format_opt_time (some t) = format_rfc3339 t

-- The event that the middleware logs, for the path, the address and the browser.
abbrev gate_event : String → Client → String → String → Fields → Env → Server → Server
gate_event key client type outcome metadata e = logged e (record (security_event type outcome) {
  ip = key;
  user_agent = client.user_agent;
  metadata = metadata;
})

-- The request passes if there is room in the address's window.
unfoldable rate_limited :
    Env → String → String → Client → (Server → Server × Reply) → Server → Server × Reply
rate_limited e path key client next v =
    let (l, allowed, wait) = allow (e.now 0) (e.now 1) key v.auth_rl in
    let v1 : Server = record v { auth_rl = l } in
    if not allowed
    then (
      gate_event key client "AUTH_RATE_LIMIT_HIT" "blocked"
          (field "path" (str path) (field "retry_after_seconds" (int (pos (wait / second))) end))
          (skip 2 e) v1,
      write_json 429 (retry_body "troppi tentativi, riprova più tardi" (wait / second)),
    )
    else next v1

unfoldable pub auth_rate_limit_middleware :
    NetSyntax → Env → String → Client → (Server → Server × Reply) → Server → Server × Reply
unfolding rate_limited
auth_rate_limit_middleware net e path client next v =
    let key = if client.ip == "" then "unknown" else client.ip in
    let (s1, decision) = evaluate_client_ip_policy net e key v.store in
    let v1 : Server = record v { store = s1 } in
    let limited : Server × Reply = rate_limited (skip 2 e) path key client next v1 in
    let blocked : Server × Reply =
      if decision.action == "block"
      then on_some decision.blocked_by limited (λ b. (
        gate_event key client "IP_BLOCKED_REQUEST" "blocked"
            (field "path" (str path) (
              field "reason" (str b.reason) (
                field "blocked_by" (str b.blocked_by) (
                  field "block_rule" (str b.ip) (
                    field "expires_at" (str (format_opt_time b.expires_at))
                      (field "policy_rule" (str decision.reason) end))))))
            (skip 2 e) v1,
        write_err 403 "ip bloccato",
      ))
      else limited in
    if decision.action == "allow"
    then on_some decision.allowed_by blocked (λ a. next (
        gate_event key client "IP_ALLOWLIST_MATCH" "allowed"
          (field "path" (str path) (
            field "reason" (str a.reason) (
              field "allowed_by" (str a.allowed_by) (
                field "allow_rule" (str a.ip) (
                  field "expires_at" (str (format_opt_time a.expires_at))
                    (field "policy_rule" (str decision.reason) end))))))
          (skip 2 e) v1))
    else blocked
