-- ===== src/Http/IpRules.antt =====
-- internal/httpapi/server.go: the handlers under /api/bo/security that edit the lists of blocked and
-- of allowed addresses. The syntax of addresses is a parameter; the router lets no caller without a
-- role of the back office come here.
pub mod Blocked
pub mod Allowed
pub mod Removal
pub mod RoundTrip
use Prim.Native.Nat.{◌%◌, ◌^◌}
use visto_easy.Prelude.{
  ℕ, zero, suc, ◌+◌, ◌-◌, ◌*◌, Bool, true, false, not, ◌&&◌, String, List, [], ◌∷◌, ◌++◌, Option,
  none, some, ◌==◌, if◌then◌else◌, on_some, trim_space, ltb, length, ◌⊎◌, inl, inr,
}
use mathlib.Core.List.{map}
use visto_easy.Prelude.Int.{ℤ, pos, negsuc}
use visto_easy.Prelude.Clock.{Time, Env, skip, minute}
use visto_easy.Model.{str, int, end, field, BlockedIp, AllowedIp}
use visto_easy.Store.State.{MemoryStore, Outcome, Result, ok, err, on_result}
use visto_easy.Store.Ips.{
  upsert_blocked_ip, remove_blocked_ip, list_blocked_ips, upsert_allowed_ip, remove_allowed_ip,
  list_allowed_ips,
}
use visto_easy.Http.Reply.{
  Claims, Client, Reply, Served, Body, write_json, write_err, undecoded, security_event,
  record_security_event, status_body, blocked_body, allowed_body, blocked_list_body,
  allowed_list_body, removal_body,
}
use visto_easy.Http.IpPolicy.{Ip, Network, NetSyntax, IpPolicyDecision, evaluate_client_ip_policy}

-- What package net has besides: the host of `net.SplitHostPort`, and the texts that `String()`
-- gives for an address and for a network.
pub record NetText : Type 0 where
  pub split_host_port : String → Option String
  pub ip_string : Ip → String
  pub network_string : Network → String

-- `envInt` of the two settings, with their fallbacks 120 and 240.
pub record RuleSettings : Type 0 where
  pub block_ttl : ℤ
  pub allow_ttl : ℤ

-- The two lines that both normalisations begin with.
abbrev host_of : NetText → String → String
host_of text v =
    on_some (text.split_host_port v) v λ host. if trim_space host == "" then v else trim_space host

unfoldable pub normalize_ip_address : NetSyntax → NetText → String → Option String
normalize_ip_address net text raw =
    if trim_space raw == ""
    then none
    else on_some (net.parse_ip (host_of text (trim_space raw))) none λ ip. some (text.ip_string ip)

unfoldable pub normalize_block_target : NetSyntax → NetText → String → Option String
normalize_block_target net text raw =
    let v = host_of text (trim_space raw) in
    if trim_space raw == ""
    then none
    else on_some (net.parse_ip v)
        (on_some (net.parse_cidr v) none λ n. some (text.network_string n))
        λ ip. some (text.ip_string ip)

-- `if ttlMinutes <= 0 { … }` on the field and on the setting: 0 where neither is positive.
abbrev pub effective_ttl : ℤ → ℤ → ℕ
effective_ttl (pos (suc n)) setting = suc n
effective_ttl _ (pos n) = n
effective_ttl _ (negsuc n) = 0

pub record RuleRequest : Type 0 where
  pub ip : String
  pub reason : String
  pub ttl_minutes : ℤ

-- The reason that is given, or the one that stands for none.
abbrev pub reason_or : String → String → String
reason_or reason default = if trim_space reason == "" then default else trim_space reason

-- The event that a handler logs about a rule.
abbrev pub rule_event : Env → Claims → String → String → String → MemoryStore → MemoryStore
rule_event e c type outcome target =
    record_security_event e
      (record (security_event type outcome) { user_id = c.user_id; ip = target })

abbrev pub set_event : Env → Claims → String → String → String → ℤ → MemoryStore → MemoryStore
set_event e c type target reason ttl =
    record_security_event e (record (security_event type "manual") {
      user_id = c.user_id;
      ip = target;
      metadata = field "reason" (str reason) (field "ttl_minutes" (int ttl) end);
    })

-- The field, or the setting where it is not positive.
abbrev pub ttl_or : ℤ → ℤ → ℤ
ttl_or (pos (suc n)) setting = pos (suc n)
ttl_or _ setting = setting

-- `targets`, `removed`, `notFound` and `invalid` of the bulk handlers.
pub record Removed : Type 0 where
  pub removed : List String
  pub not_found : List String
  pub invalid : List String

-- The body of their loop, for a method of the store and the type of its event.
abbrev pub remove_step :
    (String → Option String)
    → (String → MemoryStore → Outcome Bool)
    → String
    → Claims
    → Env
    → String
    → Removed
    → MemoryStore
    → MemoryStore × Option Removed
remove_step normalize remove type c e raw acc s =
    on_some (normalize raw) (s, some (record acc { invalid = acc.invalid ++ trim_space raw ∷ [] }))
      λ target.
        let (s', r) = remove target s in
        on_result r (λ _. (s', none))
          λ found.
            if found
            then (
              rule_event e c type "bulk" target s',
              some (record acc { removed = acc.removed ++ target ∷ [] }),
            )
            else (s', some (record acc { not_found = acc.not_found ++ target ∷ [] }))

-- The loop; `none` where the store fails.
unfoldable pub remove_targets :
    (String → Option String)
    → (String → MemoryStore → Outcome Bool)
    → String
    → Claims
    → Env
    → List String
    → Removed
    → MemoryStore
    → MemoryStore × Option Removed
remove_targets normalize remove type c e [] acc s = (s, some acc)
remove_targets normalize remove type c e (raw ∷ raws) acc s =
    let (s', r) = remove_step normalize remove type c e raw acc s in
    on_some r (s', none) λ acc'. remove_targets normalize remove type c (skip 1 e) raws acc' s'

pub record BulkRequest : Type 0 where
  pub targets : List String
  pub all : Bool
