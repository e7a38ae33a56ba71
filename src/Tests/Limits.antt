-- ===== src/Tests/Limits.antt =====
-- Limits, locks, pages and rules for addresses, at concrete inputs.
use Prim.Native.Nat.{min}
use mathlib.Core.List.{Memᴰ}
use visto_easy.Prelude.{
  ℕ, ◌≡◌, refl, ◌⊎◌, inl, inr, true, false, List, [], ◌∷◌, none, some, String-discrete, take, ltb,
  arith, trim_space,
}
use visto_easy.Prelude.Clock.{after_opt}
use visto_easy.Prelude.Dict.{lookup, values}
use visto_easy.Model.{BlockedIp, AllowedIp}
use visto_easy.Store.State.{MemoryStore, empty_store}
use visto_easy.Store.Ips.{list_blocked_ips, list_allowed_ips, purge}
use visto_easy.Store.Order.{latest_first}
use visto_easy.Http.RateLimit.Window.{IsIdle, allowed, allowed-window}
use visto_easy.Http.LoginLock.{is_locked, record_failure}
use visto_easy.Http.LoginLock.Lockout.{IsClear, failures, failures-lock}
use visto_easy.Http.Pagination.Slices.{first_pages, first_pages-take}
use visto_easy.Http.IpPolicy.{
  Ip, ip_matches_blocked_target, is_exact_rule, rule_specificity, best_from, best_blocked_match,
  best_allowed_match, weigh, evaluate_client_ip_policy, contains, is_v4,
}
use visto_easy.Http.IpPolicy.BestMatch.{IsBest, NoneMatches, best_from-IsBest}
use visto_easy.Http.IpPolicy.Precedence.{
  NoFullNetwork, weigh-exact_block, weigh-full_network, evaluate-blocked_by,
}
use visto_easy.Tests.Data.{at, limiter, tracker, net}

idle : IsIdle 100 "ip" limiter
unfolding lookup
idle = refl

allowed-window_example : allowed "ip" limiter (100 ∷ 110 ∷ 120 ∷ []) ≡ min 3 2
allowed-window_example =
    allowed-window "ip" 100 (110 ∷ 120 ∷ []) limiter (omega arith) idle
      (omega arith, (omega arith, tt))

clear : IsClear 100 "anna" tracker
unfolding lookup
clear = refl

failures-lock_example :
    let before = failures "anna" (100 ∷ 110 ∷ []) tracker in
    ((is_locked 150 150 "anna" before).1 ≡ false)
    × ((is_locked 150 150 "anna" (record_failure 120 120 "anna" before).0).1 ≡ ltb 150 180)
failures-lock_example =
    failures-lock "anna" 100 (110 ∷ []) 120 150 150 tracker (omega arith) clear (omega arith, tt)
      (omega arith) (omega arith) refl

abbrev items : List ℕ
items = 5 ∷ 6 ∷ 7 ∷ []

first_pages-take_example : first_pages items 2 2 ≡ some (take 4 items)
first_pages-take_example = first_pages-take items 2 2 (omega arith) (omega arith)

abbrev local : Ip
local = 0xFFFF0A000001

abbrev exact : BlockedIp
exact = record {
  ip = "10.0.0.1";
  reason = "abuse";
  blocked_by = "boss";
  blocked_at = 1;
  expires_at = none;
}

abbrev wide : BlockedIp
wide = record exact { ip = "10.0.0.0/8"; blocked_at = 2 }

abbrev rules : List BlockedIp
rules = wide ∷ exact ∷ []

best_from-IsBest_example :
    let best =
      best_from net (λ (b : BlockedIp). b.ip) (λ (b : BlockedIp). b.blocked_at) local none rules in
    ((best ≡ none)
      × NoneMatches net (λ (b : BlockedIp). b.ip) (λ (b : BlockedIp). b.blocked_at) local rules)
    ⊎ ((r : BlockedIp) × (best ≡ some r)
        × IsBest net (λ (b : BlockedIp). b.ip) (λ (b : BlockedIp). b.blocked_at) local r rules)
best_from-IsBest_example =
    best_from-IsBest net (λ (b : BlockedIp). b.ip) (λ (b : BlockedIp). b.blocked_at) local rules

exact-matches : ip_matches_blocked_target net local "10.0.0.1" ≡ true
unfolding ip_matches_blocked_target trim_space String-discrete
exact-matches = refl

exact-IsExact : is_exact_rule net "10.0.0.1" ≡ true
unfolding is_exact_rule trim_space String-discrete
exact-IsExact = refl

rules-NoFullNetwork : NoFullNetwork net local "10.0.0.1" rules
unfolding is_exact_rule rule_specificity trim_space String-discrete is_v4
rules-NoFullNetwork = (inr (inr refl), (inr (inl refl), tt))

weigh-exact_block_example :
    (weigh net (best_blocked_match net local rules) (best_allowed_match net local [])).action
    ≡ "block"
weigh-exact_block_example =
    weigh-exact_block net local exact rules [] (Memᴰ.tail (Memᴰ.head refl)) exact-matches
      exact-IsExact rules-NoFullNetwork

abbrev blocking_store : MemoryStore
blocking_store = record empty_store { blocked_ips = ("10.0.0.1", exact) ∷ [] }

local-parsed : net.parse_ip (trim_space "10.0.0.1") ≡ some local
unfolding trim_space String-discrete
local-parsed = refl

exact-named :
    (evaluate_client_ip_policy net (at 5 "a") "10.0.0.1" blocking_store).1.blocked_by ≡ some exact
unfolding evaluate_client_ip_policy trim_space String-discrete list_blocked_ips list_allowed_ips
    best_blocked_match best_allowed_match weigh ip_matches_blocked_target is_exact_rule purge
    latest_first values
exact-named = refl

evaluate-blocked_by_example :
    (after_opt 5 none ≡ false)
    × Memᴰ exact (values blocking_store.blocked_ips)
    × (ip_matches_blocked_target net local "10.0.0.1" ≡ true)
evaluate-blocked_by_example =
    evaluate-blocked_by net (at 5 "a") "10.0.0.1" blocking_store local exact local-parsed
      exact-named

-- The exact rule as a network of full length, a minute later, and an exact allow rule.
abbrev full : BlockedIp
full = record exact { ip = "10.0.0.1/32"; blocked_at = 2 }

abbrev trusted : AllowedIp
trusted = record {
  ip = "10.0.0.1";
  reason = "office";
  allowed_by = "boss";
  allowed_at = 0;
  expires_at = none;
}

full-matches : ip_matches_blocked_target net local "10.0.0.1/32" ≡ true
unfolding ip_matches_blocked_target trim_space String-discrete contains is_v4
full-matches = refl

full-network : is_exact_rule net "10.0.0.1/32" ≡ false
unfolding is_exact_rule trim_space String-discrete
full-network = refl

full-specific : rule_specificity net "10.0.0.1/32" ≡ rule_specificity net "10.0.0.1"
unfolding rule_specificity trim_space String-discrete is_v4
full-specific = refl

weigh-full_network_example :
    (weigh net
      (best_blocked_match net local (full ∷ exact ∷ []))
      (best_allowed_match net local (trusted ∷ []))).action
    ≡ "allow"
weigh-full_network_example =
    weigh-full_network net local exact full trusted exact-matches full-matches exact-matches
      full-network exact-IsExact full-specific refl
