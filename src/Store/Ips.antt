-- ===== src/Store/Ips.antt =====
-- internal/store/memory.go: the lists of blocked and allowed addresses, whose entries may end.
pub mod Live
use visto_easy.Prelude.{
  Bool, true, false, String, List, [], ◌∷◌, Option, none, some, ◌==◌, if◌then◌else◌, on_some,
  trim_space,
}
use visto_easy.Prelude.Clock.{Time, Env, is_zero, after_opt}
use visto_easy.Prelude.Dict.{Dict, lookup, insert, erase, values}
use visto_easy.Model.{BlockedIp, AllowedIp}
use visto_easy.Store.State.{MemoryStore, Outcome, Result, ok, err, not_found, forbidden_state}
use visto_easy.Store.Order.{latest_first}

-- The entry that an upsert stores, under its trimmed address.
abbrev pub stored_blocked : String → Time → BlockedIp → BlockedIp
stored_blocked ip' now entry = record entry {
  ip = ip';
  blocked_at = if is_zero entry.blocked_at then now else entry.blocked_at;
}

unfoldable pub upsert_blocked_ip : Env → BlockedIp → MemoryStore → Outcome BlockedIp
upsert_blocked_ip e entry s =
    let ip' = trim_space entry.ip in
    let entry' = stored_blocked ip' (e.now 0) entry in
    if ip' == ""
    then (s, err forbidden_state)
    else (record s { blocked_ips = insert ip' entry' s.blocked_ips }, ok entry')

unfoldable pub remove_blocked_ip : String → MemoryStore → Outcome Bool
remove_blocked_ip ip s =
    let ip' = trim_space ip in
    if ip' == ""
    then (s, err forbidden_state)
    else on_some (lookup ip' s.blocked_ips) (s, ok false)
        λ _. (record s { blocked_ips = erase ip' s.blocked_ips }, ok true)

-- What the loops of `ListBlockedIPs` and `ListAllowedIPs` leave in the map.
module _ {V : Type 0} (expiry : V → Option Time) where
  unfoldable pub purge : Time → Dict V → Dict V
  purge now [] = []
  purge now ((ip, v) ∷ m) =
      let rest = purge now m in if after_opt now (expiry v) then rest else (ip, v) ∷ rest

unfoldable pub list_blocked_ips : Env → MemoryStore → MemoryStore × List BlockedIp
unfolding purge
list_blocked_ips e s =
    let live = purge (λ (b : BlockedIp). b.expires_at) (e.now 0) s.blocked_ips in
    (record s { blocked_ips = live }, latest_first (λ (b : BlockedIp). b.blocked_at) (values live))

unfoldable pub get_blocked_ip : Env → String → MemoryStore → Outcome BlockedIp
get_blocked_ip e ip s =
    let ip' = trim_space ip in
    on_some (lookup ip' s.blocked_ips) (s, err not_found)
      λ b.
        if after_opt (e.now 0) b.expires_at
        then (record s { blocked_ips = erase ip' s.blocked_ips }, err not_found)
        else (s, ok b)

-- The entry that an upsert stores, under its trimmed address.
abbrev pub stored_allowed : String → Time → AllowedIp → AllowedIp
stored_allowed ip' now entry = record entry {
  ip = ip';
  allowed_at = if is_zero entry.allowed_at then now else entry.allowed_at;
}

unfoldable pub upsert_allowed_ip : Env → AllowedIp → MemoryStore → Outcome AllowedIp
upsert_allowed_ip e entry s =
    let ip' = trim_space entry.ip in
    let entry' = stored_allowed ip' (e.now 0) entry in
    if ip' == ""
    then (s, err forbidden_state)
    else (record s { allowed_ips = insert ip' entry' s.allowed_ips }, ok entry')

unfoldable pub remove_allowed_ip : String → MemoryStore → Outcome Bool
remove_allowed_ip ip s =
    let ip' = trim_space ip in
    if ip' == ""
    then (s, err forbidden_state)
    else on_some (lookup ip' s.allowed_ips) (s, ok false)
        λ _. (record s { allowed_ips = erase ip' s.allowed_ips }, ok true)

unfoldable pub list_allowed_ips : Env → MemoryStore → MemoryStore × List AllowedIp
unfolding purge
list_allowed_ips e s =
    let live = purge (λ (a : AllowedIp). a.expires_at) (e.now 0) s.allowed_ips in
    (record s { allowed_ips = live }, latest_first (λ (a : AllowedIp). a.allowed_at) (values live))

unfoldable pub get_allowed_ip : Env → String → MemoryStore → Outcome AllowedIp
get_allowed_ip e ip s =
    let ip' = trim_space ip in
    on_some (lookup ip' s.allowed_ips) (s, err not_found)
      λ a.
        if after_opt (e.now 0) a.expires_at
        then (record s { allowed_ips = erase ip' s.allowed_ips }, err not_found)
        else (s, ok a)
