-- ===== src/Http/IpPolicy/Precedence.antt =====
-- Which rule decides, by evaluateClientIPPolicy.
use mathlib.Core.List.{Memᴰ}
use visto_easy.Prelude.{
  ◌≡◌, refl, sym, ◌∙◌, ◌⊎◌, inl, inr, Bool, true, false, not, ◌||◌, ◌&&◌, String, List, [], ◌∷◌,
  Option, none, some, arith, All, All-mem, trim_space,
}
use visto_easy.Prelude.Int.{ℤ, pos, negsuc, ltb_ℤ}
use visto_easy.Prelude.Clock.{Time, Env, after, after_opt}
use visto_easy.Prelude.Dict.{values}
use visto_easy.Model.{BlockedIp, AllowedIp}
use visto_easy.Store.State.{MemoryStore}
use visto_easy.Store.Ips.Live.{Memᴰ-list_blocked_ips}
use visto_easy.Store.Ips.{list_blocked_ips}
use visto_easy.Http.IpPolicy.{
  Ip, NetSyntax, ip_matches_blocked_target, rule_specificity, is_exact_rule, beats,
  best_blocked_match, best_allowed_match, weigh, evaluate_client_ip_policy,
}
use visto_easy.Http.IpPolicy.BestMatch.{best_from-IsBest}

same_rank :
    (i j : ℤ) (s t : Time)
    → j ≡ i
    → after t s ≡ true
    → (ltb_ℤ j i || not (ltb_ℤ i j) && after s t) ≡ false
same_rank (pos i) j s t e h = ground arith
same_rank (negsuc i) j s t e h = ground arith

module _ (net : NetSyntax) (client : Ip) where
  -- A network among the rules that match is less specific than the given target.
  abbrev pub NoFullNetwork : String → List BlockedIp → Type 0
  NoFullNetwork target = All λ x.
      (ip_matches_blocked_target net client x.ip ≡ false)
      ⊎ ((is_exact_rule net x.ip ≡ true)
          ⊎ (ltb_ℤ (rule_specificity net x.ip) (rule_specificity net target) ≡ true))

  abbrev surpasses : BlockedIp → BlockedIp → Bool
  surpasses = beats net (λ (b : BlockedIp). b.ip) (λ (b : BlockedIp). b.blocked_at)

  -- An exact block decides: where a block rule that is an address matches the client, and every
  -- matching block rule that is a network is less specific than it, the decision is to block,
  -- whatever the allow rules are.
  pub weigh-exact_block :
      (b : BlockedIp) (blocked : List BlockedIp) (allowed : List AllowedIp)
      → Memᴰ b blocked
      → ip_matches_blocked_target net client b.ip ≡ true
      → is_exact_rule net b.ip ≡ true
      → NoFullNetwork b.ip blocked
      → (weigh net
          (best_blocked_match net client blocked)
          (best_allowed_match net client allowed)).action
        ≡ "block"
  unfolding best_blocked_match weigh
  weigh-exact_block b blocked allowed m hit exact full =
      elim (best_from-IsBest net (λ (b : BlockedIp). b.ip) (λ (b : BlockedIp). b.blocked_at) client
        blocked) [
          | inl (e, all) ↦ absurd (ground (arith, All-mem _ blocked all m))
          | inr (r, e, best) ↦
              let strong : is_exact_rule net r.ip ≡ true = ground (
                arith,
                best.matching,
                All-mem _ blocked full best.listed,
                All-mem _ blocked best.unbeaten m,
              ) in
              rw e (rw strong refl)
        ]

  -- A network of full length can hide an exact block: where an exact block rule, a block rule
  -- that is a network as specific and was made later, and an exact allow rule all match the
  -- client, the decision over these rules is to allow.
  pub weigh-full_network :
      (b c : BlockedIp) (a : AllowedIp)
      → ip_matches_blocked_target net client b.ip ≡ true
      → ip_matches_blocked_target net client c.ip ≡ true
      → ip_matches_blocked_target net client a.ip ≡ true
      → is_exact_rule net c.ip ≡ false
      → is_exact_rule net a.ip ≡ true
      → rule_specificity net c.ip ≡ rule_specificity net b.ip
      → after c.blocked_at b.blocked_at ≡ true
      → (weigh net
          (best_blocked_match net client (c ∷ b ∷ []))
          (best_allowed_match net client (a ∷ []))).action
        ≡ "allow"
  unfolding best_blocked_match best_allowed_match weigh
  weigh-full_network b c a hb hc ha nc xa same late =
      let kept : surpasses b c ≡ false = same_rank _ _ b.blocked_at c.blocked_at same late in
      rw hc (rw hb (rw ha (rw kept (rw nc (rw xa refl)))))

  weigh-sources :
      (b : Option BlockedIp) (a : Option AllowedIp)
      → ((weigh net b a).blocked_by ≡ b) × ((weigh net b a).allowed_by ≡ a)
  unfolding weigh
  weigh-sources none none = ground arith
  weigh-sources none (some a) = ground arith
  weigh-sources (some b) none = ground arith
  weigh-sources (some b) (some a) = ground arith

best_blocked_match-IsBest :
    (net : NetSyntax) (client : Ip) (rules : List BlockedIp) (b : BlockedIp)
    → best_blocked_match net client rules ≡ some b
    → Memᴰ b rules × (ip_matches_blocked_target net client b.ip ≡ true)
unfolding best_blocked_match
best_blocked_match-IsBest net client rules b h =
    elim (best_from-IsBest net (λ (b : BlockedIp). b.ip) (λ (b : BlockedIp). b.blocked_at) client
      rules) [
        | inl (e, all) ↦ absurd (ground arith)
        | inr (r, e, best) ↦
            let same : r ≡ b = ground arith in (rw (← same) best.listed, rw (← same) best.matching)
      ]

-- A decision names a rule in force: where the client's text is an address, a block rule that the
-- decision names is in the store, has not ended at the time and matches the address.
pub evaluate-blocked_by :
    (net : NetSyntax) (e : Env) (raw : String) (s : MemoryStore) (client : Ip) (b : BlockedIp)
    → net.parse_ip (trim_space raw) ≡ some client
    → (evaluate_client_ip_policy net e raw s).1.blocked_by ≡ some b
    → (after_opt (e.now 0) b.expires_at ≡ false)
      × Memᴰ b (values s.blocked_ips)
      × (ip_matches_blocked_target net client b.ip ≡ true)
unfolding evaluate_client_ip_policy
evaluate-blocked_by net e raw s client b parsed h =
    let blocked = (list_blocked_ips e s).1 in
    let chosen : best_blocked_match net client blocked ≡ some b =
      sym (weigh-sources net client _ _).0 ∙ rw (parsed) at h in
    let (m, hit) = best_blocked_match-IsBest net client blocked b chosen in
    let (live, stored) = Memᴰ-list_blocked_ips e s m in (live, stored, hit)
