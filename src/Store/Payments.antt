-- ===== src/Store/Payments.antt =====
-- internal/store/memory.go: payments, and the webhook events that were seen.
pub mod Tokens
use Prim.Native.Char.{code}
use Prim.Native.String.{◌++◌, slice}
use Prim.Native.String
use visto_easy.Prelude.{
  ◌+◌, ◌*◌, Bool, true, false, not, String, List, [], ◌∷◌, Option, none, some, ◌==◌, if◌then◌else◌,
  on_some, trim_space, to_lower, leb, ◌&&◌,
}
use visto_easy.Prelude.Int.{ℤ}
use visto_easy.Prelude.Clock.{Time, Env, hour}
use visto_easy.Prelude.Dict.{Dict, lookup, insert}
use visto_easy.Model.{Pagamento, pendente, completato, rimborsato, is_completato}
use visto_easy.Store.State.{
  MemoryStore, Outcome, Result, ok, err, not_found, invalid_state, forbidden_state,
}

-- `strings.ReplaceAll(s, "-", "")`
unfoldable pub without_dashes : String → String
without_dashes String.[] = ""
without_dashes (String.◌∷◌ c s) =
    let rest = without_dashes s in
    if leb b'-' (code c) && leb (code c) b'-' then rest else String.◌∷◌ c rest

-- `s.payments[id] = pay`
abbrev pub put_payment : String → Pagamento → MemoryStore → MemoryStore
put_payment id pay s = record s { payments = insert id pay s.payments }

-- The payment that `CreatePayment` stores; `token[:12]` is in range, a UUID having 32 digits.
abbrev pub new_payment : Env → String → String → ℤ → Pagamento
new_payment e pratica_id provider amount =
    let token = without_dashes (e.uuid 0) in
    record {
      id = e.uuid 1;
      pratica_id = pratica_id;
      provider = provider;
      provider_session_id = "sess_" ++ slice token 0 12;
      token = token;
      importo = amount;
      valuta = "EUR";
      stato = pendente;
      link_pagamento = "/pagamento/" ++ token;
      scadenza = e.now 0 + 48 * hour;
      pagato_il = none;
      creato_il = e.now 0;
    }

unfoldable pub create_payment : Env → String → String → ℤ → MemoryStore → Outcome Pagamento
create_payment e pratica_id provider amount s =
    on_some (lookup pratica_id s.pratiche) (s, err not_found)
      λ _. let pay = new_payment e pratica_id provider amount in (put_payment pay.id pay s, ok pay)

-- `if strings.TrimSpace(v) != "" { field = strings.TrimSpace(v) }`
abbrev pub trimmed_or : String → String → String
trimmed_or v old = if trim_space v == "" then old else trim_space v

unfoldable pub update_payment_checkout : String → String → String → MemoryStore → Outcome Pagamento
update_payment_checkout payment_id session link s =
    on_some (lookup (trim_space payment_id) s.payments) (s, err not_found)
      λ pay.
        let pay' = record pay {
          provider_session_id = trimmed_or session pay.provider_session_id;
          link_pagamento = trimmed_or link pay.link_pagamento;
        } in
        (put_payment (trim_space payment_id) pay' s, ok pay')

-- The loops over `s.payments`: the first entry with the token, under its key.
unfoldable pub find_payment : String → Dict Pagamento → Option (String × Pagamento)
find_payment token [] = none
find_payment token ((id, pay) ∷ m) =
    if pay.token == token then some (id, pay) else find_payment token m

unfoldable pub get_payment_by_token : String → MemoryStore → Result Pagamento
unfolding find_payment
get_payment_by_token token s =
    on_some (find_payment token s.payments) (err not_found) λ found. ok found.1

abbrev pub confirmed : Time → Pagamento → Pagamento
confirmed now pay = record pay { stato = completato; pagato_il = some now }

unfoldable pub confirm_payment_by_token : Env → String → MemoryStore → Outcome Pagamento
confirm_payment_by_token e token s =
    on_some (find_payment token s.payments) (s, err not_found)
      λ found. let pay' = confirmed (e.now 0) found.1 in (put_payment found.0 pay' s, ok pay')

abbrev pub refunded : Pagamento → Pagamento
refunded pay = record pay { stato = rimborsato }

unfoldable pub refund_payment_by_token : String → MemoryStore → Outcome Pagamento
refund_payment_by_token token s =
    on_some (find_payment token s.payments) (s, err not_found)
      λ found.
        if not (is_completato found.1.stato)
        then (s, err invalid_state)
        else (put_payment found.0 (refunded found.1) s, ok (refunded found.1))

-- The key of an event: provider and identifier.
abbrev pub webhook_key : String → String → String
webhook_key provider event = to_lower (trim_space provider) ++ ":" ++ trim_space event

-- The result says whether the event had been seen before.
unfoldable pub mark_webhook_event_processed :
    Env → String → String → String → MemoryStore → Outcome Bool
mark_webhook_event_processed e provider event payment s =
    let key = webhook_key provider event in
    if key == ":"
    then (s, err forbidden_state)
    else on_some (lookup key s.webhooks)
        (record s { webhooks = insert key (e.now 0) s.webhooks }, ok false) λ _. (s, ok true)
