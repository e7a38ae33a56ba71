-- ===== src/Http/IpPolicy/BestMatch.antt =====
-- The loop of bestBlockedMatch and bestAllowedMatch finds the rule that no matching rule beats.
use mathlib.Core.List.{Memᴰ}
use visto_easy.Prelude.{
  ◌≡◌, refl, ◌⊎◌, inl, inr, Bool, true, false, not, ◌||◌, ◌&&◌, String, List, [], ◌∷◌, none, some,
  arith, Bool-cases, All,
}
use visto_easy.Prelude.Int.{ℤ, pos, negsuc, ltb_ℤ}
use visto_easy.Prelude.Clock.{Time, after}
use visto_easy.Http.IpPolicy.{
  Ip, NetSyntax, ip_matches_blocked_target, rule_specificity, beats, best_from,
}

-- More specific, or as specific and later.
abbrev above : ℤ → Time → ℤ → Time → Bool
above i s j t = ltb_ℤ j i || not (ltb_ℤ i j) && after s t

above_trans :
    (i j k : ℤ) (s t u : Time)
    → above i s j t ≡ false
    → above j t k u ≡ false
    → above i s k u ≡ false
above_trans (pos i) (pos j) (pos k) s t u h g = ground arith
above_trans (pos i) (pos j) (negsuc k) s t u h g = ground arith
above_trans (pos i) (negsuc j) (pos k) s t u h g = ground arith
above_trans (pos i) (negsuc j) (negsuc k) s t u h g = ground arith
above_trans (negsuc i) (pos j) (pos k) s t u h g = ground arith
above_trans (negsuc i) (pos j) (negsuc k) s t u h g = ground arith
above_trans (negsuc i) (negsuc j) (pos k) s t u h g = ground arith
above_trans (negsuc i) (negsuc j) (negsuc k) s t u h g = ground arith

above_asym : (i j : ℤ) (s t : Time) → above i s j t ≡ true → above j t i s ≡ false
above_asym (pos i) (pos j) s t h = ground arith
above_asym (pos i) (negsuc j) s t h = ground arith
above_asym (negsuc i) (pos j) s t h = ground arith
above_asym (negsuc i) (negsuc j) s t h = ground arith

above_irrefl : (i : ℤ) (s : Time) → above i s i s ≡ false
above_irrefl (pos i) s = ground arith
above_irrefl (negsuc i) s = ground arith

module _ (net : NetSyntax) {R : Type 0} (target : R → String) (at : R → Time) (client : Ip) where
  -- Every rule that matches is not above the given one.
  abbrev NoneBeats : R → List R → Type 0
  NoneBeats r = All λ x.
      (ip_matches_blocked_target net client (target x) ≡ false) ⊎ (beats net target at x r ≡ false)

  abbrev pub NoneMatches : List R → Type 0
  NoneMatches = All λ x. ip_matches_blocked_target net client (target x) ≡ false

  abbrev IsHit : R → Type 0
  IsHit r = ip_matches_blocked_target net client (target r) ≡ true

  abbrev spec : R → ℤ
  spec r = rule_specificity net (target r)

  deeper :
      (x : R) {r b : R} {xs : List R}
      → (r ≡ b) ⊎ (Memᴰ r xs × IsHit r)
      → (r ≡ b) ⊎ (Memᴰ r (x ∷ xs) × IsHit r)
  deeper x (inl p) = inl p
  deeper x (inr (m, h)) = inr (Memᴰ.tail m, h)

  found_at :
      {x r : R} {xs : List R}
      → IsHit x
      → (r ≡ x) ⊎ (Memᴰ r xs × IsHit r)
      → Memᴰ r (x ∷ xs) × IsHit r
  found_at hit (inl p) = (Memᴰ.head p, rw p hit)
  found_at hit (inr (m, h)) = (Memᴰ.tail m, h)

  -- What the loop carries: the best rule is at least as good as the one before.
  best_from-some :
      (b : R) (rules : List R)
      → (r : R) × (best_from net target at client (some b) rules ≡ some r)
        × ((r ≡ b) ⊎ (Memᴰ r rules × (ip_matches_blocked_target net client (target r) ≡ true)))
        × (beats net target at b r ≡ false)
        × NoneBeats r rules
  unfolding best_from
  best_from-some b [] =
      (b, refl, inl refl, above_irrefl (rule_specificity net (target b)) (at b), tt)
  best_from-some b (x ∷ xs) = elim (Bool-cases (ip_matches_blocked_target net client (target x))) [
    | inr miss ↦
        let (r, e, from, top, all) = best_from-some b xs in
        (r, rw miss e, deeper x from, top, (inl miss, all))
    | inl hit ↦ elim (Bool-cases (beats net target at x b)) [
      | inl up ↦
          let (r, e, from, top, all) = best_from-some x xs in
          (
            r,
            rw hit (rw up e),
            inr (found_at hit from),
            above_trans (spec b) (spec x) (spec r) (at b) (at x) (at r)
                (above_asym (spec x) (spec b) (at x) (at b) up) top,
            (inr top, all),
          )
      | inr down ↦
          let (r, e, from, top, all) = best_from-some b xs in
          (
            r,
            rw hit (rw down e),
            deeper x from,
            top,
            (inr (above_trans (spec x) (spec b) (spec r) (at x) (at b) (at r) down top), all),
          )
    ]
  ]

  -- A rule was found, and no matching rule is more specific, or as specific and later.
  pub record IsBest (r : R) (rules : List R) : Type 0 where
    pub listed : Memᴰ r rules
    pub matching : ip_matches_blocked_target net client (target r) ≡ true
    pub unbeaten : NoneBeats r rules

  -- The search for the best rule finds it: over a list of rules it returns none exactly if no
  -- rule matches the address, and otherwise a rule of the list that matches and that no matching
  -- rule of the list beats by being more specific, or as specific and later.
  pub best_from-IsBest :
      (rules : List R)
      → ((best_from net target at client none rules ≡ none) × NoneMatches rules)
        ⊎ ((r : R) × (best_from net target at client none rules ≡ some r) × IsBest r rules)
  unfolding best_from
  best_from-IsBest [] = inl (refl, tt)
  best_from-IsBest (x ∷ xs) = elim (Bool-cases (ip_matches_blocked_target net client (target x))) [
    | inr miss ↦ elim (best_from-IsBest xs) [
      | inl (e, all) ↦ inl (rw miss e, (miss, all))
      | inr (r, e, best) ↦ inr (
        r,
        rw miss e,
        record {
          listed = Memᴰ.tail best.listed;
          matching = best.matching;
          unbeaten = (inl miss, best.unbeaten);
        },
      )
    ]
    | inl hit ↦
        let (r, e, from, top, all) = best_from-some x xs in
        let (m, h) = found_at hit from in
        inr (r, rw hit e, record { listed = m; matching = h; unbeaten = (inr top, all) })
  ]
