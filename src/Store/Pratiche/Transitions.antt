-- ===== src/Store/Pratiche/Transitions.antt =====
-- The diagram of allowedTransitions: its terminal states, and what every path through it passes.
use visto_easy.Prelude.{
  ◌∙◌, Bool-cases, ◌≡◌, ◌≢◌, ◌⊎◌, inl, inr, Bool, true, false, List, [], ◌∷◌, ◌++◌, arith,
}
use visto_easy.Model.{
  StatoPratica, rifiutata, attende_pagamento, pagamento_ricevuto, visto_in_elaborazione,
  visto_emesso, completata, annullata, EventoPratica,
}
use visto_easy.Store.Pratiche.{allowed_transition}

-- The events of a log lead from one state to another: an event "STATO_CAMBIATO" follows an edge
-- of the diagram and begins where the events before it ended, and other events change nothing.
pub data Follows : StatoPratica → List EventoPratica → StatoPratica → Type 0 where
  done : {a : StatoPratica} → Follows a [] a
  stay :
      {a b : StatoPratica} {e : EventoPratica} {es : List EventoPratica}
      → e.tipo_evento ≢ "STATO_CAMBIATO"
      → Follows a es b
      → Follows a (e ∷ es) b
  move :
      {a b : StatoPratica} {e : EventoPratica} {es : List EventoPratica}
      → e.tipo_evento ≡ "STATO_CAMBIATO"
      → e.da_stato ≡ a
      → allowed_transition a e.a_stato ≡ true
      → Follows e.a_stato es b
      → Follows a (e ∷ es) b

pub Follows-append :
    {a b c : StatoPratica} {es fs : List EventoPratica}
    → Follows a es b
    → Follows b fs c
    → Follows a (es ++ fs) c
Follows-append done g = g
Follows-append (stay n f) g = stay n (Follows-append f g)
Follows-append (move t d h f) g = move t d h (Follows-append f g)

-- The states that only the receipt of a payment opens.
abbrev pub is_paid : StatoPratica → Bool
is_paid pagamento_ricevuto = true
is_paid visto_in_elaborazione = true
is_paid visto_emesso = true
is_paid completata = true
is_paid _ = false

paid_edge :
    (a b : StatoPratica)
    → allowed_transition a b ≡ true
    → is_paid a ≡ false
    → is_paid b ≡ true
    → (a ≡ attende_pagamento) × (b ≡ pagamento_ricevuto)
unfolding allowed_transition
paid_edge a b h n p = ground arith

-- Some event of the log has moved the pratica from ATTENDE_PAGAMENTO to PAGAMENTO_RICEVUTO.
pub data HasPayment : List EventoPratica → Type 0 where
  here :
      {e : EventoPratica} {es : List EventoPratica}
      → e.tipo_evento ≡ "STATO_CAMBIATO"
      → e.da_stato ≡ attende_pagamento
      → e.a_stato ≡ pagamento_ricevuto
      → HasPayment (e ∷ es)
  later : {e : EventoPratica} {es : List EventoPratica} → HasPayment es → HasPayment (e ∷ es)

pub Follows-HasPayment :
    {a b : StatoPratica} {es : List EventoPratica}
    → Follows a es b
    → is_paid a ≡ false
    → is_paid b ≡ true
    → HasPayment es
Follows-HasPayment done n p = cc
Follows-HasPayment (stay k f) n p = later (Follows-HasPayment f n p)
Follows-HasPayment {a} (move {e = e} t d h f) n p = elim (Bool-cases (is_paid e.a_stato)) [
  | inl q ↦ let (at, to) = paid_edge a e.a_stato h n q in here t (d ∙ at) to
  | inr q ↦ later (Follows-HasPayment f q p)
]

-- The states that no edge leaves.
abbrev pub IsTerminal : StatoPratica → Type 0
IsTerminal a = (a ≡ rifiutata) ⊎ ((a ≡ completata) ⊎ (a ≡ annullata))

pub edge-IsTerminal : (a b : StatoPratica) → IsTerminal a → allowed_transition a b ≡ false
unfolding allowed_transition
edge-IsTerminal a b h = ground arith
