-- ===== src/Http/Webhook/Delivery.antt =====
-- What the four moves after a payment do to the pratica, in internal/httpapi/server.go.

use visto_easy.Prelude.{
  ◌≡◌, refl, ap, ◌∙◌, inl, inr, String, some, Bool-cases, Option-cases, if◌then◌else◌,
}
use visto_easy.Prelude.Clock.{Env, skip}
use visto_easy.Prelude.Dict.{lookup, lookup-insert_self}
use visto_easy.Model.{
  StatoPratica, bozza, inviata, in_lavorazione, integrazione_richiesta, sospesa, approvata,
  rifiutata, attende_pagamento, pagamento_ricevuto, visto_in_elaborazione, visto_emesso, completata,
  annullata, other_stato, Pratica,
}
use visto_easy.Store.State.{MemoryStore}
use visto_easy.Store.Pratiche.{allowed_transition, change_pratica_state, moved}
use visto_easy.Http.Webhook.{step, deliver}

-- The state that the four moves reach from a state: the end from a state on the way, and the state
-- itself otherwise.
abbrev pub delivered : StatoPratica → StatoPratica
delivered attende_pagamento = completata
delivered pagamento_ricevuto = completata
delivered visto_in_elaborazione = completata
delivered visto_emesso = completata
delivered stato = stato

-- The pratica after a move that is tried.
abbrev tried : Env → String → StatoPratica → String → Pratica → Pratica
tried e id next note p =
    if allowed_transition p.stato next
    then moved (e.uuid 0) id "system" next note (e.now 0) p
    else p

module _ (e : Env) (id : String) (next : StatoPratica) (note : String) (s : MemoryStore) where
  lookup-step :
      (p : Pratica)
      → lookup id s.pratiche ≡ some p
      → lookup id (step e id next note s).pratiche ≡ some (tried e id next note p)
  unfolding change_pratica_state
  lookup-step p found = elim (Bool-cases (allowed_transition p.stato next)) [
    | inl h ↦ rw (found, step) (rw h (lookup-insert_self id _ s.pratiche))
    | inr h ↦ rw (found, step) (rw h found)
  ]

  -- A move leaves the payments and the webhook events.
  step-payments :
      let s' = step e id next note s in (s'.payments ≡ s.payments) × (s'.webhooks ≡ s.webhooks)
  unfolding change_pratica_state
  step-payments = elim (Option-cases (lookup id s.pratiche)) [
    | inl absent ↦ rw (absent, step) (refl, refl)
    | inr (p, found) ↦ elim (Bool-cases (allowed_transition p.stato next)) [
      | inl h ↦ rw (found, step) (rw h (refl, refl))
      | inr h ↦ rw (found, step) (rw h (refl, refl))
    ]
  ]

-- The state after a move that is tried.
abbrev reached : StatoPratica → StatoPratica → StatoPratica
reached next stato = if allowed_transition stato next then next else stato

tried-stato :
    (e : Env) (id : String) (next : StatoPratica) (note : String) (p : Pratica)
    → (tried e id next note p).stato ≡ reached next p.stato
tried-stato e id next note p = elim (Bool-cases (allowed_transition p.stato next)) [
  | inl h ↦ rw h refl
  | inr h ↦ rw h refl
]

reached-delivered :
    (stato : StatoPratica)
    → reached completata
        (reached visto_emesso (reached visto_in_elaborazione (reached pagamento_ricevuto stato)))
      ≡ delivered stato
unfolding allowed_transition
reached-delivered bozza = refl
reached-delivered inviata = refl
reached-delivered in_lavorazione = refl
reached-delivered integrazione_richiesta = refl
reached-delivered sospesa = refl
reached-delivered approvata = refl
reached-delivered rifiutata = refl
reached-delivered attende_pagamento = refl
reached-delivered pagamento_ricevuto = refl
reached-delivered visto_in_elaborazione = refl
reached-delivered visto_emesso = refl
reached-delivered completata = refl
reached-delivered annullata = refl
reached-delivered (other_stato x) = refl

-- The pratica after the four moves.
abbrev pub after_moves : Env → String → Pratica → Pratica
after_moves e id p = tried (skip 3 e) id completata "visto consegnato" (
    tried (skip 2 e) id visto_emesso "visto emesso" (
      tried (skip 1 e) id visto_in_elaborazione "generazione visto"
        (tried e id pagamento_ricevuto "webhook provider" p)))

module _ (e : Env) (id : String) (s : MemoryStore) where
  pub lookup-deliver :
      (p : Pratica)
      → lookup id s.pratiche ≡ some p
      → lookup id (deliver e id s).pratiche ≡ some (after_moves e id p)
  unfolding deliver
  lookup-deliver p found = lookup-step _ id completata _ _ _ (
      lookup-step _ id visto_emesso _ _ _ (
        lookup-step _ id visto_in_elaborazione _ _ _
          (lookup-step e id pagamento_ricevuto _ s p found)))

  pub deliver-payments :
      ((deliver e id s).payments ≡ s.payments) × ((deliver e id s).webhooks ≡ s.webhooks)
  unfolding deliver
  deliver-payments =
      let s1 = step e id pagamento_ricevuto "webhook provider" s in
      let s2 = step (skip 1 e) id visto_in_elaborazione "generazione visto" s1 in
      let s3 = step (skip 2 e) id visto_emesso "visto emesso" s2 in
      let a = step-payments e id pagamento_ricevuto "webhook provider" s in
      let b = step-payments (skip 1 e) id visto_in_elaborazione "generazione visto" s1 in
      let c = step-payments (skip 2 e) id visto_emesso "visto emesso" s2 in
      let d = step-payments (skip 3 e) id completata "visto consegnato" s3 in
      (d.0 ∙ c.0 ∙ b.0 ∙ a.0, d.1 ∙ c.1 ∙ b.1 ∙ a.1)

pub after_moves-stato :
    (e : Env) (id : String) (p : Pratica) → (after_moves e id p).stato ≡ delivered p.stato
after_moves-stato e id p =
    let p1 = tried e id pagamento_ricevuto "webhook provider" p in
    let p2 = tried (skip 1 e) id visto_in_elaborazione "generazione visto" p1 in
    let p3 = tried (skip 2 e) id visto_emesso "visto emesso" p2 in
    tried-stato (skip 3 e) id completata "visto consegnato" p3
    ∙ ap (reached completata) (tried-stato (skip 2 e) id visto_emesso "visto emesso" p2)
    ∙ ap (λ x. reached completata (reached visto_emesso x))
        (tried-stato (skip 1 e) id visto_in_elaborazione "generazione visto" p1)
    ∙ ap (λ x. reached completata (reached visto_emesso (reached visto_in_elaborazione x)))
        (tried-stato e id pagamento_ricevuto "webhook provider" p)
    ∙ reached-delivered p.stato
