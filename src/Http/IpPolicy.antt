-- ===== src/Http/IpPolicy.antt =====
-- internal/httpapi/server.go: the decision whether an address may use the authentication
-- endpoints, from the lists of blocked and allowed addresses and networks.
pub mod BestMatch
pub mod Precedence
use Prim.Native.Nat.{◌/◌, ◌%◌, ◌^◌}
use visto_easy.Prelude.{
  ℕ, ◌+◌, ◌-◌, Bool, true, false, not, ◌||◌, ◌&&◌, String, List, [], ◌∷◌, Option, none, some, ◌==◌,
  if◌then◌else◌, on_some, leb, trim_space, eqb,
}
use visto_easy.Prelude.Int.{ℤ, pos, negsuc, ltb_ℤ}
use visto_easy.Prelude.Clock.{Time, Env, after}
use visto_easy.Model.{BlockedIp, AllowedIp}
use visto_easy.Store.State.{MemoryStore}
use visto_easy.Store.Ips.{list_blocked_ips, list_allowed_ips}

-- A `net.IP` in its form of 16 bytes, read as a number; an IPv4 address stands below 0xFFFF in it.
abbrev pub Ip : Type 0
Ip = ℕ

-- `ip.To4() != nil`
unfoldable pub is_v4 : Ip → Bool
is_v4 ip = eqb (ip / 2 ^ 32) 0xFFFF

-- `*net.IPNet`: the network's address, the ones of its mask, and whether the mask has 4 bytes.
pub record Network : Type 0 where
  pub address : Ip
  pub ones : ℕ
  pub is_short : Bool

-- The two addresses agree but for the last `bits` bits of `width`.
abbrev agree : ℕ → ℕ → ℕ → Bool
agree bits a b = eqb (a / 2 ^ bits) (b / 2 ^ bits)

-- `network.Contains(ip)`: the families must be the same; of a long mask over an IPv4 address the
-- last 4 bytes count.
unfoldable pub contains : Network → Ip → Bool
unfolding is_v4
contains n ip =
    let ones = if n.is_short then n.ones else n.ones - 96 in
    if is_v4 n.address
    then is_v4 ip && agree (32 - ones) ip n.address
    else not (is_v4 ip) && agree (128 - n.ones) ip n.address

-- The text syntax of addresses and networks: `net.ParseIP` and `net.ParseCIDR`.
pub record NetSyntax : Type 0 where
  pub parse_ip : String → Option Ip
  pub parse_cidr : String → Option Network

pub record IpPolicyDecision : Type 0 where
  pub action : String
  pub reason : String
  pub blocked_by : Option BlockedIp
  pub allowed_by : Option AllowedIp

-- `optBlockedPtr(ok, value)` and `optAllowedPtr(ok, value)` keep a match as it is.
abbrev decide : String → String → Option BlockedIp → Option AllowedIp → IpPolicyDecision
decide action reason b a = record {
  action = action;
  reason = reason;
  blocked_by = b;
  allowed_by = a;
}

module _ (net : NetSyntax) where
  open net use {parse_ip, parse_cidr}

  -- `clientIP` is not nil where the code calls it.
  unfoldable pub ip_matches_blocked_target : Ip → String → Bool
  ip_matches_blocked_target client target =
      let t = trim_space target in
      if t == ""
      then false
      else on_some (parse_ip t) (on_some (parse_cidr t) false λ n. contains n client)
          λ ip. eqb client ip

  unfoldable pub rule_specificity : String → ℤ
  rule_specificity target =
      let t = trim_space target in
      on_some (parse_ip t) (on_some (parse_cidr t) (negsuc 0) λ n. pos n.ones)
        λ ip. if is_v4 ip then pos 32 else pos 128

  unfoldable pub is_exact_rule : String → Bool
  is_exact_rule target = on_some (parse_ip (trim_space target)) false λ _. true

  -- The loop of `bestBlockedMatch` and of `bestAllowedMatch`, which differ in the type of a rule:
  -- a rule that matches replaces the best one if it is more specific, or as specific and later.
  module _ {R : Type 0} (target : R → String) (at : R → Time) where
    abbrev pub beats : R → R → Bool
    beats rule best =
        ltb_ℤ (rule_specificity (target best)) (rule_specificity (target rule))
        || not (ltb_ℤ (rule_specificity (target rule)) (rule_specificity (target best)))
          && after (at rule) (at best)

    abbrev pub better : R → Option R → R
    better rule none = rule
    better rule (some best) = if beats rule best then rule else best

    unfoldable pub best_from : Ip → Option R → List R → Option R
    best_from client best [] = best
    best_from client best (rule ∷ rules) =
        best_from client
          (if ip_matches_blocked_target client (target rule) then some (better rule best) else best)
          rules

  unfoldable pub best_blocked_match : Ip → List BlockedIp → Option BlockedIp
  unfolding best_from
  best_blocked_match client =
      best_from (λ (b : BlockedIp). b.ip) (λ (b : BlockedIp). b.blocked_at) client none

  unfoldable pub best_allowed_match : Ip → List AllowedIp → Option AllowedIp
  unfolding best_from
  best_allowed_match client =
      best_from (λ (a : AllowedIp). a.ip) (λ (a : AllowedIp). a.allowed_at) client none

  -- What follows the two searches.
  abbrev is_exact_block : Option BlockedIp → Bool
  is_exact_block b = on_some b false λ r. is_exact_rule r.ip

  abbrev is_exact_allow : Option AllowedIp → Bool
  is_exact_allow a = on_some a false λ r. is_exact_rule r.ip

  unfoldable by_specificity : Option BlockedIp → Option AllowedIp → IpPolicyDecision
  by_specificity none none = decide "allow" "no_matching_rule" none none
  by_specificity (some b) none = decide "block" "block_rule" (some b) none
  by_specificity none (some a) = decide "allow" "allow_rule" none (some a)
  by_specificity (some b) (some a) =
      if not (ltb_ℤ (rule_specificity b.ip) (rule_specificity a.ip))
      then decide "block" "cidr_block_precedence" (some b) (some a)
      else decide "allow" "cidr_allow_precedence" (some b) (some a)

  unfoldable pub weigh : Option BlockedIp → Option AllowedIp → IpPolicyDecision
  unfolding by_specificity
  weigh b a =
      if is_exact_block b
      then decide "block" "exact_block_rule" b a
      else if is_exact_allow a
      then decide "allow" "exact_allow_rule" b a
      else by_specificity b a

  -- The two lists are read one after the other, each with its own reading of the clock, and
  -- reading them deletes the entries that have ended.
  unfoldable pub evaluate_client_ip_policy :
      Env → String → MemoryStore → MemoryStore × IpPolicyDecision
  unfolding weigh best_blocked_match best_allowed_match
  evaluate_client_ip_policy e raw s =
      on_some (parse_ip (trim_space raw)) (s, decide "allow" "invalid_ip_fallback" none none)
        λ client.
          let (s', blocked) = list_blocked_ips e s in
          let (s'', allowed) =
            list_allowed_ips (record { now = λ i. e.now (i + 1); uuid = e.uuid }) s' in
          (s'', weigh (best_blocked_match client blocked) (best_allowed_match client allowed))
