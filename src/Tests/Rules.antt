-- ===== src/Tests/Rules.antt =====
-- Edits of the list of blocked addresses, at concrete inputs.
use visto_easy.Prelude.{
  ◌+◌, ◌≡◌, refl, false, String, List, [], ◌∷◌, none, some, String-discrete, trim_space, length,
  All, if◌then◌else◌, ◌==◌,
}
use visto_easy.Prelude.Int.{pos}
use visto_easy.Store.Events.{time_or, add_security_event}
use visto_easy.Http.Reply.{record_security_event}
use visto_easy.Prelude.Dict.{erase, lookup}
use visto_easy.Model.{BlockedIp}
use visto_easy.Store.State.{MemoryStore, empty_store}
use visto_easy.Store.Ips.{remove_blocked_ip, upsert_blocked_ip}
use visto_easy.Http.IpRules.{
  NetText, RuleSettings, RuleRequest, normalize_block_target, remove_targets,
}
use visto_easy.Http.IpRules.Blocked.{
  handle_bo_block_ip, handle_bo_unblock_ip, handle_bo_unblock_ip_bulk,
}
use visto_easy.Http.IpRules.Removal.{IsGone, unblock_ip_bulk-IsGone}
use visto_easy.Http.IpRules.RoundTrip.{unblock_ip-block_ip}
use visto_easy.Tests.Data.{at, boss, net}

-- Every address prints as the same one, and no text has a port.
abbrev text : NetText
text = record {
  split_host_port = λ v. none;
  ip_string = λ ip. "10.0.0.1";
  network_string = λ n. "10.0.0.0/8";
}

abbrev rule : BlockedIp
rule = record {
  ip = "10.0.0.1";
  reason = "manual_block";
  blocked_by = "boss";
  blocked_at = 5;
  expires_at = some 120000000005;
}

abbrev blocking : MemoryStore
blocking = record empty_store { blocked_ips = ("10.0.0.1", rule) ∷ [] }

abbrev targets : List String
targets = "10.0.0.1" ∷ " " ∷ "10.0.0.2" ∷ []

-- The first text is removed, the last names the same address, the other is none.
abbrev found : List String
found = "10.0.0.1" ∷ []

abbrev blank : List String
blank = "" ∷ []

unblock_ip_bulk-IsGone_example :
    let o =
      handle_bo_unblock_ip_bulk net text
        (at 6 "e")
        boss
        (some (record { targets = targets; all = false }))
        blocking in
    (length found + length found + length blank ≡ length targets)
    × All (IsGone (normalize_block_target net text) o.0) targets
    × ((k : String) → lookup k blocking.blocked_ips ≡ none → lookup k o.0.blocked_ips ≡ none)
unfolding handle_bo_unblock_ip_bulk remove_targets normalize_block_target trim_space String-discrete
    remove_blocked_ip lookup record_security_event add_security_event erase
unblock_ip_bulk-IsGone_example =
    unblock_ip_bulk-IsGone net text (at 6 "e") boss targets blocking found found blank refl

abbrev settings : RuleSettings
settings = record { block_ttl = pos 120; allow_ttl = pos 240 }

abbrev request : RuleRequest
request = record { ip = "10.0.0.1"; reason = ""; ttl_minutes = pos 2 }

unblock_ip-block_ip_example :
    let blocked = handle_bo_block_ip net text settings (at 5 "e") boss (some request) empty_store in
    let freed = handle_bo_unblock_ip net text (at 6 "f") boss (some request.ip) blocked.0 in
    let again = handle_bo_unblock_ip net text (at 7 "g") boss (some request.ip) freed.0 in
    (lookup "10.0.0.1" blocked.0.blocked_ips ≡ some rule)
    × (rule.blocked_by ≡ "boss")
    × (rule.blocked_at ≡ time_or 5 6)
    × (freed.1.status ≡ 200)
    × ((k : String)
        → lookup k freed.0.blocked_ips
          ≡ (if rule.ip == k then none else lookup k empty_store.blocked_ips))
    × (again.1.status ≡ 404)
unfolding handle_bo_block_ip normalize_block_target trim_space String-discrete upsert_blocked_ip
unblock_ip-block_ip_example =
    unblock_ip-block_ip net text settings (at 5 "e") (at 6 "f") (at 7 "g") boss boss request
      empty_store rule refl
