-- ===== src/Mongo/Refinement/Tokens.antt =====
-- The loops of internal/store/memory.go over the payments, against filters on the token, which has
-- a unique index in the database.
use visto_easy.Prelude.{
  Bool, true, false, ◌≡◌, refl, ap, inl, inr, String, List, [], ◌∷◌, ◌++◌, none, some, on_some,
  ◌==◌, ◌&&◌, eq_of_==, ==_refl, if◌then◌else◌, arith, Bool-cases,
}
use visto_easy.Prelude.Dict.{Dict, insert, values, IsMap}
use visto_easy.Model.{Pagamento}
use visto_easy.Store.Payments.{find_payment}
use visto_easy.Store.Payments.Tokens.{lookup-find_payment}
use visto_easy.Mongo.Tables.{first, update_first}

abbrev pub has_token : String → Pagamento → Bool
has_token t p = p.token == t

-- No two payments share a token.
abbrev pub HaveTokens : List Pagamento → Type 0
HaveTokens [] = Unit
HaveTokens (p ∷ ps) = (first (has_token p.token) ps ≡ none) × HaveTokens ps

pub first-find_payment :
    (t : String) (m : Dict Pagamento)
    → first (has_token t) (values m) ≡ on_some (find_payment t m) none λ f. some f.1
unfolding first values find_payment
first-find_payment t [] = refl
first-find_payment t ((k, p) ∷ m) = ground (arith, first-find_payment t m)

-- A write back to the entry that a loop stops at is an update by the token.
pub values-insert_found :
    (t : String) (f : Pagamento → Pagamento) (m : Dict Pagamento) (id : String) (p : Pagamento)
    → IsMap m
    → find_payment t m ≡ some (id, p)
    → values (insert id (f p) m) ≡ update_first (has_token t) f (values m)
unfolding find_payment values insert update_first
values-insert_found t f [] id p i h = absurd (ground arith)
values-insert_found t f ((k, c) ∷ m) id p (n, i) h = elim (Bool-cases (c.token == t)) [
  | inl hit ↦
      let e : ◌≡◌ {A = String × Pagamento} (k, c) (id, p) = ground arith in
      rw
        (
          hit,
          ap (λ (x : String × Pagamento). x.0) e,
          ap (λ (x : String × Pagamento). x.1) e,
          ==_refl id,
        )
        refl
  | inr miss ↦
      let rest = rw miss at h in
      let at = (lookup-find_payment t m id p i rest).0 in
      ground (arith, values-insert_found t f m id p i rest)
]

first-append_miss :
    (t : String) (ps : List Pagamento) (p : Pagamento)
    → first (has_token t) ps ≡ none
    → has_token t p ≡ false
    → first (has_token t) (ps ++ p ∷ []) ≡ none
unfolding first
first-append_miss t [] p h k = rw k refl
first-append_miss t (q ∷ ps) p h k = ground (arith, first-append_miss t ps p)

pub HaveTokens-append :
    (ps : List Pagamento) (p : Pagamento)
    → HaveTokens ps
    → first (has_token p.token) ps ≡ none
    → HaveTokens (ps ++ p ∷ [])
unfolding first
HaveTokens-append [] p u h = (refl, tt)
HaveTokens-append (q ∷ ps) p (n, u) h = elim (Bool-cases (q.token == p.token)) [
  | inl same ↦ absurd (ground arith)
  | inr other ↦
      (first-append_miss q.token ps p n (ground arith), HaveTokens-append ps p u (rw other at h))
]

-- A filter that asks for a token and for more.
pub first-token_and :
    (t : String) (c : Pagamento → Bool) (ps : List Pagamento)
    → HaveTokens ps
    → first (λ p. has_token t p && c p) ps
      ≡ on_some (first (has_token t) ps) none λ p. if c p then some p else none
unfolding first
first-token_and t c [] u = refl
first-token_and t c (p ∷ ps) (n, u) = elim (Bool-cases (p.token == t)) [
  | inl hit ↦ elim (Bool-cases (c p)) [
    | inl good ↦ rw (hit, good) refl
    | inr bad ↦
        rw (hit, bad) (rw (first-token_and t c ps u) (rw (← eq_of_== p.token t hit) (rw n refl)))
  ]
  | inr miss ↦ rw miss (first-token_and t c ps u)
]

pub update_first-token_and :
    (t : String) (c : Pagamento → Bool) (f : Pagamento → Pagamento) (ps : List Pagamento)
    (p : Pagamento)
    → first (has_token t) ps ≡ some p
    → c p ≡ true
    → update_first (λ p. has_token t p && c p) f ps ≡ update_first (has_token t) f ps
unfolding first update_first
update_first-token_and t c f [] p h ok = refl
update_first-token_and t c f (q ∷ ps) p h ok = ground (arith, update_first-token_and t c f ps p)

first-update_first :
    (t : String) (q : Pagamento → Bool) (f : Pagamento → Pagamento) (ps : List Pagamento)
    → ((p : Pagamento) → (f p).token ≡ p.token)
    → first (has_token t) ps ≡ none
    → first (has_token t) (update_first q f ps) ≡ none
unfolding first update_first
first-update_first t q f [] k h = refl
first-update_first t q f (p ∷ ps) k h = ground (arith, k p, first-update_first t q f ps k)

pub update_first-HaveTokens :
    (q : Pagamento → Bool) (f : Pagamento → Pagamento) (ps : List Pagamento)
    → ((p : Pagamento) → (f p).token ≡ p.token)
    → HaveTokens ps
    → HaveTokens (update_first q f ps)
unfolding update_first
update_first-HaveTokens q f [] k u = tt
update_first-HaveTokens q f (p ∷ ps) k (n, u) = elim (Bool-cases (q p)) [
  | inl hit ↦ rw hit (rw (k p) (n, u))
  | inr miss ↦ rw miss (first-update_first p.token q f ps k n, update_first-HaveTokens q f ps k u)
]
