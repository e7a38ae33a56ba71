-- ===== src/Http/Webhook.antt =====
-- internal/httpapi/server.go: the payment provider's webhook. The mail that it sends is left out.
pub mod Delivery
pub mod Once
use visto_easy.Prelude.{
  ℕ, Bool, true, false, not, ◌&&◌, ◌||◌, String, List, [], ◌∷◌, Option, none, some, ◌==◌,
  if◌then◌else◌, on_some, trim_space, to_lower,
}
use visto_easy.Prelude.Int.{ℤ, pos, ltb_ℤ}
use visto_easy.Prelude.Clock.{Env, skip}
use visto_easy.Model.{
  Fields, str, num, end, field, StatoPratica, attende_pagamento, pagamento_ricevuto,
  visto_in_elaborazione, visto_emesso, completata, Pratica, Pagamento,
}
use visto_easy.Store.State.{
  MemoryStore, Outcome, Result, ok, err, on_result, not_found, invalid_state, StoreError,
}
use visto_easy.Store.Pratiche.{change_pratica_state}
use visto_easy.Store.Payments.{
  create_payment, update_payment_checkout, get_payment_by_token, confirm_payment_by_token,
  refund_payment_by_token, mark_webhook_event_processed,
}
use visto_easy.Http.Reply.{
  Claims, Client, Reply, Served, write_json, write_err, undecoded, security_event,
  record_security_event, record_audit_event, status_body, payment_body, refund_body,
}

-- The JSON of a webhook's body: the fields that are read, empty where they are missing.
pub record WebhookBody : Type 0 where
  pub event : String
  pub event_id : String
  pub token : String
  pub id : String
  pub type : String
  pub client_reference_id : String
  pub metadata_token : String

pub record WebhookPaymentInfo : Type 0 where
  pub event : String
  pub event_id : String
  pub token : String

-- `x := TrimSpace(a); if x == "" { x = … }`
abbrev first_of : String → String → String
first_of a b = if trim_space a == "" then b else trim_space a

-- The fingerprint is the one of the body's bytes.
unfoldable pub parse_webhook_payment_info : String → WebhookBody → WebhookPaymentInfo
parse_webhook_payment_info fingerprint raw = record {
  event = to_lower (first_of raw.event (trim_space raw.type));
  event_id = first_of raw.event_id (first_of raw.id fingerprint);
  token = first_of raw.token (first_of raw.metadata_token (trim_space raw.client_reference_id));
}

-- `_, _ = s.store.ChangePraticaState(pay.PraticaID, "system", next, note)`
abbrev pub step : Env → String → StatoPratica → String → MemoryStore → MemoryStore
step e id next note s = (change_pratica_state e id "system" next note s).0

-- The four moves that follow a confirmed payment.
unfoldable pub deliver : Env → String → MemoryStore → MemoryStore
deliver e id s = step (skip 3 e) id completata "visto consegnato" (
    step (skip 2 e) id visto_emesso "visto emesso" (
      step (skip 1 e) id visto_in_elaborazione "generazione visto"
        (step e id pagamento_ricevuto "webhook provider" s)))

-- The webhook once its body is read.
unfoldable pub process_webhook : Env → WebhookPaymentInfo → MemoryStore → Served
unfolding deliver
process_webhook e info s =
    if not (to_lower info.event == "payment.succeeded")
    then (s, write_json 200 (status_body "ignored" end))
    else if trim_space info.token == ""
    then (s, write_err 400 "token pagamento mancante")
    else on_result (get_payment_by_token info.token s)
        (λ _. (s, write_err 404 "pagamento non trovato"))
        λ existing.
          let (s1, marked) = mark_webhook_event_processed e "stripe" info.event_id existing.id s in
          on_result marked (λ _. (s1, write_err 500 "errore deduplicazione webhook"))
            λ already.
              if already
              then (
                s1,
                write_json 200
                    (status_body "duplicate_ignored" (field "event_id" (str info.event_id) end)),
              )
              else let (s2, confirmed) = confirm_payment_by_token (skip 1 e) info.token s1 in
                on_result confirmed (λ _. (s2, write_err 404 "pagamento non trovato"))
                  λ pay. (
                    deliver (skip 2 e) pay.pratica_id s2,
                    write_json 200
                        (status_body "processed" (field "event_id" (str info.event_id) end)),
                  )

-- `verified` is verifyStripeSignature of the secret, the body and the header, for the body that
-- came; the body is none where it is no JSON.
unfoldable pub handle_pagamento_webhook :
    Env
    → String
    → (String → String → Bool)
    → String
    → String
    → Option WebhookBody
    → MemoryStore
    → Served
unfolding process_webhook parse_webhook_payment_info
handle_pagamento_webhook e secret verified signature fingerprint body s =
    let key = trim_space secret in
    if not (key == "") && not (verified key (trim_space signature))
    then (s, write_err 401 "firma webhook non valida")
    else on_some body (s, undecoded)
        λ raw. process_webhook e (parse_webhook_payment_info fingerprint raw) s
