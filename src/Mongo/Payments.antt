-- ===== src/Mongo/Payments.antt =====
-- internal/store/mongo.go: payments, and the webhook events that were seen.
use visto_easy.Prelude.{
  Bool, true, false, ◌&&◌, ◌||◌, String, ◌==◌, if◌then◌else◌, trim_space, to_lower, leb, ltb,
}
use visto_easy.Prelude.Int.{ℤ}
use visto_easy.Prelude.Clock.{Env}
use visto_easy.Model.{Pagamento, is_completato}
use visto_easy.Store.State.{not_found, invalid_state, forbidden_state}
use visto_easy.Store.Payments.{new_payment, trimmed_or, confirmed, refunded}
use visto_easy.Mongo.Driver.{
  MongoStore, WebhookEvent, Reply, done, refused, fault, on_answer, on_insert, on_reply, find_by,
}
use visto_easy.Mongo.Pratiche.{get_pratica}

-- The update document of `UpdatePaymentCheckout`.
abbrev pub with_checkout : String → String → Pagamento → Pagamento
with_checkout session link pay = record pay {
  provider_session_id = trimmed_or session pay.provider_session_id;
  link_pagamento = trimmed_or link pay.link_pagamento;
}

module _ {S : Type 0} (db : MongoStore S) where
  unfoldable pub create_payment : Env → String → String → ℤ → S → S × Reply Pagamento
  create_payment e pratica_id provider amount s =
      let pay = new_payment e pratica_id provider amount in
      on_reply s (get_pratica db pratica_id s) λ _.
        let (s', inserted) = db.pagamenti.insert_one pay s in
        on_answer inserted (s', fault) λ _. (s', done pay)

  -- With nothing to set the payment is only read.
  unfoldable pub update_payment_checkout : String → String → String → S → S × Reply Pagamento
  update_payment_checkout payment_id session link s =
      let id = trim_space payment_id in
      let (s', updated) =
        db.pagamenti.update_one (λ p. p.id == id) (with_checkout session link) s in
      if id == ""
      then (s, refused forbidden_state)
      else if trim_space session == "" && trim_space link == ""
      then (s, find_by db.pagamenti (λ p. p.id == id) s)
      else on_answer updated (s', fault)
          λ n.
            if leb n.matched 0
            then (s', refused not_found)
            else (s', find_by db.pagamenti (λ p. p.id == id) s')

  unfoldable pub get_payment_by_token : String → S → Reply Pagamento
  get_payment_by_token token = find_by db.pagamenti λ p. p.token == token

  unfoldable pub confirm_payment_by_token : Env → String → S → S × Reply Pagamento
  confirm_payment_by_token e token s =
      let (s', updated) = db.pagamenti.update_one (λ p. p.token == token) (confirmed (e.now 0)) s in
      on_answer updated (s', fault)
        λ n.
          if leb n.matched 0 then (s', refused not_found) else (s', get_payment_by_token token s')

  -- A payment that was not changed is read to tell a missing one from one in another state.
  unfoldable pub refund_payment_by_token : String → S → S × Reply Pagamento
  refund_payment_by_token token s =
      let tok = trim_space token in
      let (s', updated) =
        db.pagamenti.update_one (λ p. p.token == tok && is_completato p.stato) refunded s in
      on_answer updated (s', fault)
        λ n.
          if ltb 0 n.modified
          then (s', get_payment_by_token tok s')
          else on_reply s' (get_payment_by_token tok s') λ _. (s', refused invalid_state)

  -- The result says whether the event had been seen before, which the unique index tells.
  unfoldable pub mark_webhook_event_processed : Env → String → String → String → S → S × Reply Bool
  mark_webhook_event_processed e provider event payment s =
      let evt : WebhookEvent = record {
        id = e.uuid 0;
        provider = to_lower (trim_space provider);
        event_id = trim_space event;
        payment_id = trim_space payment;
        creato_il = e.now 0;
      } in
      let (s', inserted) = db.webhooks.insert_one evt s in
      if evt.provider == "" || evt.event_id == ""
      then (s, refused forbidden_state)
      else on_insert inserted (s', done true) (s', fault) λ _. (s', done false)
