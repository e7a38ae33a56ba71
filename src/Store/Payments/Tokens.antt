-- ===== src/Store/Payments/Tokens.antt =====
-- Payments by their token, in internal/store/memory.go: which state a confirmation and a refund
-- leave.
use visto_easy.Prelude.{
  ◌≡◌, refl, ap, true, false, inl, inr, String, [], ◌∷◌, none, some, arith, Bool-cases,
  Option-cases, ◌==◌,
}
use visto_easy.Prelude.Clock.{Env}
use visto_easy.Prelude.Dict.{Dict, lookup, insert, IsMap, insert-IsMap}
use visto_easy.Model.{Pagamento, completato, rimborsato, is_completato}
use visto_easy.Store.State.{MemoryStore, ok, err, not_found, invalid_state}
use visto_easy.Store.Payments.{
  put_payment, find_payment, get_payment_by_token, confirmed, confirm_payment_by_token, refunded,
  refund_payment_by_token,
}

pub lookup-find_payment :
    (token : String) (m : Dict Pagamento) (id : String) (pay : Pagamento)
    → IsMap m
    → find_payment token m ≡ some (id, pay)
    → (lookup id m ≡ some pay) × (pay.token ≡ token)
unfolding find_payment lookup
lookup-find_payment token [] id pay h e = cc
lookup-find_payment token ((j, w) ∷ m) id pay (fresh, h) e = elim (Bool-cases (w.token == token)) [
  | inl hit ↦ ground arith
  | inr miss ↦
      let (at, same) = lookup-find_payment token m id pay h (ground arith) in
      (elim (Bool-cases (j == id)) [ inl p ↦ absurd (ground arith) | inr p ↦ rw p at ], same)
]

-- A payment that is written back under its key is found by its token again.
pub find_payment-insert :
    (token : String) (m : Dict Pagamento) (id : String) (pay new : Pagamento)
    → IsMap m
    → find_payment token m ≡ some (id, pay)
    → new.token ≡ token
    → find_payment token (insert id new m) ≡ some (id, new)
unfolding find_payment insert
find_payment-insert token [] id pay new h e same = cc
find_payment-insert token ((j, w) ∷ m) id pay new (fresh, h) e same =
    elim (Bool-cases (w.token == token)) [
      | inl hit ↦ ground arith
      | inr miss ↦
          let deeper : find_payment token m ≡ some (id, pay) = ground arith in
          let at = (lookup-find_payment token m id pay h deeper).0 in
          elim (Bool-cases (j == id)) [
            | inl p ↦ absurd (ground arith)
            | inr p ↦ rw p (rw miss (find_payment-insert token m id pay new h deeper same))
          ]
    ]

module _ (token : String) (s : MemoryStore) (id : String) (pay : Pagamento) where
  refund_found :
      find_payment token s.payments ≡ some (id, pay)
      → is_completato pay.stato ≡ true
      → refund_payment_by_token token s ≡ (put_payment id (refunded pay) s, ok (refunded pay))
  unfolding refund_payment_by_token
  refund_found found done = rw found (rw done refl)

  confirm_found :
      (e : Env)
      → find_payment token s.payments ≡ some (id, pay)
      → confirm_payment_by_token e token s
        ≡ (put_payment id (confirmed (e.now 0) pay) s, ok (confirmed (e.now 0) pay))
  unfolding confirm_payment_by_token
  confirm_found e found = rw found refl

  refund_refused :
      find_payment token s.payments ≡ some (id, pay)
      → is_completato pay.stato ≡ false
      → refund_payment_by_token token s ≡ (s, err invalid_state)
  unfolding refund_payment_by_token
  refund_refused found open_ = rw found (rw open_ refl)

module _ (token : String) (s : MemoryStore) where
  refund_absent :
      find_payment token s.payments ≡ none → refund_payment_by_token token s ≡ (s, err not_found)
  unfolding refund_payment_by_token
  refund_absent absent = rw absent refl

-- What a refund that goes through has found and stored.
refunded_of :
    (token : String) (s : MemoryStore) (pay : Pagamento)
    → IsMap s.payments
    → (refund_payment_by_token token s).1 ≡ ok pay
    → (id : String) × (old : Pagamento) × (find_payment token s.payments ≡ some (id, old))
      × (pay ≡ refunded old)
      × (refund_payment_by_token token s ≡ (put_payment id (refunded old) s, ok (refunded old)))
refunded_of token s pay h done = elim (Option-cases (find_payment token s.payments)) [
  | inl absent ↦ absurd (ground (arith, refund_absent token s absent))
  | inr ((id, old), found) ↦ elim (Bool-cases (is_completato old.stato)) [
    | inr open_ ↦ absurd (ground (arith, refund_refused token s id old found open_))
    | inl full ↦
        let eq = refund_found token s id old found full in (id, old, found, ground (arith, eq), eq)
  ]
]

-- After a refund by token that goes through, in a store whose payments are a map: the payment it
-- returns is RIMBORSATO, it is the payment that the token finds, and a second refund by the same
-- token is refused as an invalid state and changes nothing.
pub refund-refund :
    (token : String) (s : MemoryStore) (pay : Pagamento)
    → IsMap s.payments
    → (refund_payment_by_token token s).1 ≡ ok pay
    → let s' = (refund_payment_by_token token s).0 in
      (pay.stato ≡ rimborsato)
      × (get_payment_by_token token s' ≡ ok pay)
      × (refund_payment_by_token token s' ≡ (s', err invalid_state))
unfolding get_payment_by_token
refund-refund token s pay h done =
    let (id, old, found, same, eq) = refunded_of token s pay h done in
    let token_kept = (lookup-find_payment token s.payments id old h found).1 in
    let again = find_payment-insert token s.payments id old (refunded old) h found token_kept in
    let s' : MemoryStore = put_payment id (refunded old) s in
    (
      ap (λ (q : Pagamento). q.stato) same,
      rw eq (rw again (rw same refl)),
      rw eq (refund_refused token s' id (refunded old) again refl),
    )

-- A confirmation by token does not look at the state of the payment: after a refund that goes
-- through, in a store whose payments are a map, a confirmation by the same token succeeds, and
-- what it returns and what the token then finds is the payment as COMPLETATO, paid at the time of
-- the confirmation.
pub confirm-refund :
    (e : Env) (token : String) (s : MemoryStore) (pay : Pagamento)
    → IsMap s.payments
    → (refund_payment_by_token token s).1 ≡ ok pay
    → let (s', r) = confirm_payment_by_token e token (refund_payment_by_token token s).0 in
      (r ≡ ok (record pay { stato = completato; pagato_il = some (e.now 0) }))
      × (get_payment_by_token token s' ≡ r)
unfolding get_payment_by_token
confirm-refund e token s pay h done =
    let (id, old, found, same, eq) = refunded_of token s pay h done in
    let token_kept = (lookup-find_payment token s.payments id old h found).1 in
    let again = find_payment-insert token s.payments id old (refunded old) h found token_kept in
    let s' : MemoryStore = put_payment id (refunded old) s in
    let paid : Pagamento = confirmed (e.now 0) (refunded old) in
    let conf = confirm_found token s' id (refunded old) e again in
    let last =
      find_payment-insert token s'.payments id (refunded old) paid
        (insert-IsMap id (refunded old) s.payments h) again token_kept in
    (rw eq (rw conf (rw same refl)), rw eq (rw conf (rw last refl)))
