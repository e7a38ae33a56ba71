-- ===== src/Mongo/Refinement/Payments.antt =====
-- The payments of internal/store/mongo.go, method by method against memory.go.
use visto_easy.Prelude.{
  true, ◌≡◌, ◌≢◌, refl, ap, ◌∙◌, inl, inr, String, none, some, on_some, ◌==◌, ◌&&◌, eq_of_==,
  if◌then◌else◌, arith, Bool-cases, Option-cases, trim_space,
}
use visto_easy.Prelude.Int.{ℤ}
use visto_easy.Prelude.Clock.{Env}
use visto_easy.Prelude.Dict.{lookup, lookup-insert_self}
use visto_easy.Model.{Pagamento, is_completato}
use visto_easy.Store.State.{MemoryStore, not_found}
use visto_easy.Store.Payments as Memory
use visto_easy.Store.Payments.{new_payment, find_payment, confirmed, refunded, put_payment}
use visto_easy.Store.Payments.Tokens.{lookup-find_payment, find_payment-insert}
use visto_easy.Mongo.Driver.{MongoStore, done, refused, find_by}
use visto_easy.Mongo.Tables.{Tables, Serves, first, update_first}
use visto_easy.Mongo.Payments as Mongo
use visto_easy.Mongo.Payments.{with_checkout}
use visto_easy.Mongo.Refinement.Keyed.{
  first-lookup, Keyed-insert, Keyed-insert_fresh, Keyed-insert_known, key-lookup, insert_same,
}
use visto_easy.Mongo.Refinement.Tokens.{
  has_token, HaveTokens-append, first-find_payment, first-token_and, update_first-token_and,
  update_first-HaveTokens, values-insert_found,
}
use visto_easy.Mongo.Refinement.Reads.{find_by_lem}
use visto_easy.Mongo.Refinement.Writes.{write_pagamenti}
use visto_easy.Mongo.Refinement.Simulation.{Refines, Simulates}
use visto_easy.Mongo.Refinement.Pratiche.{read_then}

unchanged :
    (session link : String) (p : Pagamento)
    → (trim_space session == "" && trim_space link == "") ≡ true
    → with_checkout session link p ≡ p
unchanged session link p idle = elim (Bool-cases (trim_space session == "")) [
  | inl a ↦ let b : (trim_space link == "") ≡ true = rw a at idle in rw (a, b) refl
  | inr a ↦ absurd (ground arith)
]

refunded-ne : (p : Pagamento) → is_completato p.stato ≡ true → refunded p ≢ p
refunded-ne p paid e =
    let q = ap (λ (x : Pagamento). is_completato x.stato) e in absurd (ground arith)

module _ {S : Type 0} (view : S → Tables) (db : MongoStore S) (h : Serves view db) (s : S)
    (m : MemoryStore) (r : Refines (view s) m) where
  pub create_payment_lem :
      (e : Env) (pratica_id provider : String) (amount : ℤ)
      → let pay = new_payment e pratica_id provider amount in
        lookup pay.id m.payments ≡ none
        → first (has_token pay.token) (view s).pagamenti ≡ none
        → Simulates view
            (Mongo.create_payment db e pratica_id provider amount s)
            (Memory.create_payment e pratica_id provider amount m)
  unfolding Mongo.create_payment Memory.create_payment
  create_payment_lem e pratica_id provider amount unused unclashed =
      read_then view db h s m r pratica_id λ _ _.
        let pay = new_payment e pratica_id provider amount in
        let (inserted, after') = h.pagamenti.insert_one_fresh pay s unclashed in
        rw inserted (record {
          replies = refl;
          refines =
              write_pagamenti r after'
                (Keyed-insert_fresh (λ (p : Pagamento). p.id) r.pagamenti pay.id pay refl unused)
                (HaveTokens-append (view s).pagamenti pay r.tokens unclashed);
        })

  -- The document that a filter on the token means.
  by_token :
      (token : String)
      → first (has_token token) (view s).pagamenti
        ≡ on_some (find_payment token m.payments) none λ f. some f.1
  by_token token = rw r.pagamenti.same (first-find_payment token m.payments)

  get_payment_by_token_lem :
      (token : String)
      → Mongo.get_payment_by_token db token s
        ≡ on_some (find_payment token m.payments) (refused not_found) λ f. done f.1
  unfolding Mongo.get_payment_by_token find_by
  get_payment_by_token_lem token =
      rw (h.pagamenti.find_one_lem (has_token token) s, by_token token)
        (elim (Option-cases (find_payment token m.payments)) [
          | inl at ↦ rw at refl
          | inr (f, at) ↦ rw at refl
        ])

  -- A write to the payment that a token leads to.
  write_found :
      {t' : Tables} (token id : String) (f : Pagamento → Pagamento) (p : Pagamento)
      → find_payment token m.payments ≡ some (id, p)
      → ((p : Pagamento) → (f p).token ≡ p.token)
      → (f p).id ≡ p.id
      → t' ≡ record (view s) { pagamenti = update_first (has_token token) f (view s).pagamenti }
      → Refines t' (put_payment id (f p) m)
  write_found token id f p found same_token same_id after' =
      let key = λ (q : Pagamento). q.id in
      let at = (lookup-find_payment token m.payments id p r.pagamenti.is_map found).0 in
      write_pagamenti r after'
        (Keyed-insert key r.pagamenti id (f p)
          (same_id ∙ key-lookup key id m.payments p r.pagamenti.keyed at)
          (rw (values-insert_found token f m.payments id p r.pagamenti.is_map found)
            (rw r.pagamenti.same refl)))
        (update_first-HaveTokens (has_token token) f (view s).pagamenti same_token r.tokens)

module _ {S : Type 0} (view : S → Tables) (db : MongoStore S) (h : Serves view db) (s : S)
    (m : MemoryStore) (r : Refines (view s) m) where
  -- The read that follows a write to the payment with a token.
  read_written :
      {s' : S} (token id : String) (p p' : Pagamento)
      → find_payment token m.payments ≡ some (id, p)
      → p'.token ≡ p.token
      → Refines (view s') (put_payment id p' m)
      → Mongo.get_payment_by_token db token s' ≡ done p'
  read_written {s'} token id p p' found same r' =
      let token_kept =
        same ∙ (lookup-find_payment token m.payments id p r.pagamenti.is_map found).1 in
      rw (get_payment_by_token_lem view db h s' (put_payment id p' m) r' token)
        (rw (find_payment-insert token m.payments id p p' r.pagamenti.is_map found token_kept) refl)

  pub confirm_payment_by_token_lem :
      (e : Env) (token : String)
      → Simulates view
          (Mongo.confirm_payment_by_token db e token s)
          (Memory.confirm_payment_by_token e token m)
  unfolding Mongo.confirm_payment_by_token Memory.confirm_payment_by_token
  confirm_payment_by_token_lem e token =
      let f = confirmed (e.now 0) in
      elim (Option-cases (find_payment token m.payments)) [
        | inl absent ↦
            let (answered, after') =
              h.pagamenti.update_one_miss (has_token token) f s
                (by_token view db h s m r token ∙ rw absent refl) in
            rw (answered, absent) (record { replies = refl; refines = rw after' r })
        | inr ((id, p), found) ↦
            let (n, answered, _, after') =
              h.pagamenti.update_one_hit (has_token token) f s p
                (by_token view db h s m r token ∙ rw found refl) refl in
            let r' = write_found view db h s m r token id f p found (λ _. refl) refl after' in
            rw (answered, found)
              (record { replies = read_written token id p (f p) found refl r'; refines = r' })
      ]

  pub refund_payment_by_token_lem :
      (token : String)
      → trim_space token ≡ token
      → Simulates view
          (Mongo.refund_payment_by_token db token s)
          (Memory.refund_payment_by_token token m)
  unfolding Mongo.refund_payment_by_token Memory.refund_payment_by_token
  refund_payment_by_token_lem token trimmed =
      let c = λ (p : Pagamento). is_completato p.stato in
      let q = λ (p : Pagamento). has_token token p && c p in
      let means : first q (view s).pagamenti
          ≡ on_some (find_payment token m.payments) none (λ f. if c f.1 then some f.1 else none) =
        first-token_and token c (view s).pagamenti r.tokens
        ∙ rw (by_token view db h s m r token) (elim (Option-cases (find_payment token m.payments)) [
          | inl at ↦ rw at refl
          | inr (f, at) ↦ rw at refl
        ]) in
      rw trimmed (elim (Option-cases (find_payment token m.payments)) [
        | inl absent ↦
            let (answered, after') =
              h.pagamenti.update_one_miss q refunded s (rw absent at means) in
            let r' : Refines (view (db.pagamenti.update_one q refunded s).0) m = rw after' r in
            rw (answered, absent)
              (rw (get_payment_by_token_lem view db h _ m r' token)
                (rw absent (record { replies = refl; refines = r' })))
        | inr ((id, p), found) ↦ elim (Bool-cases (c p)) [
          | inl paid ↦
              let (n, answered, changed, after') =
                h.pagamenti.update_one_hit q refunded s p (rw (found, paid) at means) refl in
              let one = changed (λ e. refunded-ne p paid e) in
              let same_update =
                update_first-token_and token c refunded (view s).pagamenti p
                  (by_token view db h s m r token ∙ rw found refl) paid in
              let r' =
                write_found view db h s m r token id refunded p found (λ _. refl) refl
                  (rw same_update at after') in
              rw (answered, one, found, paid)
                (record {
                  replies = read_written token id p (refunded p) found refl r';
                  refines = r';
                })
          | inr open' ↦
              let (answered, after') =
                h.pagamenti.update_one_miss q refunded s (rw (found, open') at means) in
              let r' : Refines (view (db.pagamenti.update_one q refunded s).0) m = rw after' r in
              rw (answered, found, open')
                (rw (get_payment_by_token_lem view db h _ m r' token)
                  (rw found (record { replies = refl; refines = r' })))
        ]
      ])

  -- An identifier that is not blank, since memory.go looks a blank one up.
  pub update_payment_checkout_lem :
      (payment_id session link : String)
      → trim_space payment_id ≢ ""
      → Simulates view
          (Mongo.update_payment_checkout db payment_id session link s)
          (Memory.update_payment_checkout payment_id session link m)
  unfolding Mongo.update_payment_checkout Memory.update_payment_checkout
  update_payment_checkout_lem payment_id session link named =
      let id = trim_space payment_id in
      let f = with_checkout session link in
      let key = λ (p : Pagamento). p.id in
      elim (Bool-cases (id == "")) [
        | inl blank ↦ absurd (named (eq_of_== id "" blank))
        | inr present ↦ rw present (elim (Option-cases (lookup id m.payments)) [
          | inl absent ↦
              let missing = first-lookup key r.pagamenti id ∙ absent in
              let (answered, after') = h.pagamenti.update_one_miss (λ p. p.id == id) f s missing in
              rw (answered, find_by_lem h.pagamenti key s r.pagamenti id, absent)
                (elim (Bool-cases (trim_space session == "" && trim_space link == "")) [
                  | inl idle ↦ rw idle (record { replies = refl; refines = r })
                  | inr busy ↦ rw busy (record { replies = refl; refines = rw after' r })
                ])
          | inr (p, at) ↦
              let (n, answered, _, after') =
                h.pagamenti.update_one_hit (λ p. p.id == id) f s p
                  (first-lookup key r.pagamenti id ∙ at) refl in
              let r' : Refines (view (db.pagamenti.update_one (λ p. p.id == id) f s).0)
                  (put_payment id (f p) m) =
                write_pagamenti r after'
                  (Keyed-insert_known key r.pagamenti id f p
                    (key-lookup key id m.payments p r.pagamenti.keyed at) at)
                  (update_first-HaveTokens (λ p. p.id == id) f (view s).pagamenti (λ _. refl)
                    r.tokens) in
              elim (Bool-cases (trim_space session == "" && trim_space link == "")) [
                | inl idle ↦
                    rw
                      (
                        idle,
                        find_by_lem h.pagamenti key s r.pagamenti id,
                        at,
                        unchanged session link p idle,
                        insert_same key id p m.payments at,
                      )
                      (record { replies = refl; refines = r })
                | inr busy ↦
                    rw (busy, answered, at)
                      (record {
                        replies =
                            find_by_lem h.pagamenti key _ r'.pagamenti id
                            ∙ rw (lookup-insert_self id (f p) m.payments) refl;
                        refines = r';
                      })
              ]
        ])
      ]
