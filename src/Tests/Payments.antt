-- ===== src/Tests/Payments.antt =====
-- Payments and their webhooks, at concrete inputs.
use visto_easy.Prelude.{
  ◌≡◌, refl, true, false, none, some, String-discrete, trim_space, to_lower, ◌==◌,
}
use visto_easy.Prelude.Dict.{lookup, IsMap}
use visto_easy.Model.{attende_pagamento, completata, rimborsato, completato, pendente, Pratica}
use visto_easy.Store.State.{MemoryStore, ok, err, invalid_state}
use visto_easy.Store.Payments.{
  find_payment, get_payment_by_token, confirmed, refunded, confirm_payment_by_token,
  refund_payment_by_token, webhook_key,
}
use visto_easy.Store.Payments.Tokens.{refund-refund, confirm-refund}
use visto_easy.Http.Webhook.{WebhookPaymentInfo, process_webhook}
use visto_easy.Http.Webhook.Once.{processed, duplicate, webhook-webhook, webhook-delivered}
use visto_easy.Tests.Data.{at, payment_in, pratica_in, billed}

abbrev waiting : MemoryStore
waiting = billed pendente attende_pagamento

abbrev paid_off : MemoryStore
paid_off = billed completato completata

abbrev info : WebhookPaymentInfo
info = record { event = "payment.succeeded"; event_id = "evt"; token = "tok" }

payments-IsMap : IsMap waiting.payments
unfolding lookup
payments-IsMap = (refl, tt)

event-succeeded : (to_lower info.event == "payment.succeeded") ≡ true
unfolding to_lower String-discrete
event-succeeded = refl

token-named : (trim_space info.token == "") ≡ false
unfolding trim_space String-discrete
token-named = refl

token-found : find_payment "tok" waiting.payments ≡ some ("pay", payment_in pendente)
unfolding find_payment String-discrete
token-found = refl

event-new : lookup (webhook_key "stripe" "evt") waiting.webhooks ≡ none
unfolding lookup
event-new = refl

webhook-webhook_example :
    let (s', reply) = process_webhook (at 5 "a") info waiting in
    (reply ≡ processed "evt")
    × (get_payment_by_token "tok" s' ≡ ok (confirmed 6 (payment_in pendente)))
    × (process_webhook (at 9 "b") info s' ≡ (s', duplicate "evt"))
webhook-webhook_example =
    webhook-webhook (at 5 "a") (at 9 "b") info waiting "pay" (payment_in pendente) payments-IsMap
      event-succeeded token-named token-found event-new

pratica-there : lookup "p" waiting.pratiche ≡ some (pratica_in attende_pagamento)
unfolding lookup String-discrete
pratica-there = refl

webhook-delivered_example :
    (q : Pratica) × (lookup "p" (process_webhook (at 5 "a") info waiting).0.pratiche ≡ some q)
    × (q.stato ≡ completata)
webhook-delivered_example =
    webhook-delivered (at 5 "a") info waiting "pay" (payment_in pendente)
      (pratica_in attende_pagamento) event-succeeded token-named token-found event-new pratica-there

refund-done : (refund_payment_by_token "tok" paid_off).1 ≡ ok (refunded (payment_in completato))
unfolding refund_payment_by_token find_payment String-discrete
refund-done = refl

paid-IsMap : IsMap paid_off.payments
unfolding lookup
paid-IsMap = (refl, tt)

refund-refund_example :
    let s' = (refund_payment_by_token "tok" paid_off).0 in
    ((refunded (payment_in completato)).stato ≡ rimborsato)
    × (get_payment_by_token "tok" s' ≡ ok (refunded (payment_in completato)))
    × (refund_payment_by_token "tok" s' ≡ (s', err invalid_state))
refund-refund_example =
    refund-refund "tok" paid_off (refunded (payment_in completato)) paid-IsMap refund-done

confirm-refund_example :
    let (s', r) =
      confirm_payment_by_token (at 8 "a") "tok" (refund_payment_by_token "tok" paid_off).0 in
    (r ≡ ok (record (refunded (payment_in completato)) { stato = completato; pagato_il = some 8 }))
    × (get_payment_by_token "tok" s' ≡ r)
confirm-refund_example =
    confirm-refund (at 8 "a") "tok" paid_off (refunded (payment_in completato)) paid-IsMap
      refund-done
