-- ===== src/Http/Webhook/Once.antt =====
-- What a payment's webhook does to the payment and to the pratica, in internal/httpapi/server.go.
use Prim.Native.Char.{Char, code}
use Prim.Native.String
use Prim.Native.String.append
use visto_easy.Prelude.{
  eq_of_==, ◌≡◌, refl, sym, ap, ◌∙◌, inl, inr, true, false, String, none, some, arith, Bool-cases,
  ◌==◌, trim_space, to_lower, ℕ,
}
use visto_easy.Prelude.Clock.{Time, Env, skip}
use visto_easy.Prelude.Dict.{lookup, insert, lookup-insert_self, IsMap}
use visto_easy.Model.{Pratica, Pagamento, str, field, end}
use visto_easy.Store.State.{MemoryStore, ok}
use visto_easy.Store.Payments.{
  put_payment, confirmed, find_payment, get_payment_by_token, confirm_payment_by_token, webhook_key,
  mark_webhook_event_processed,
}
use visto_easy.Store.Payments.Tokens.{lookup-find_payment, find_payment-insert}
use visto_easy.Http.Reply.{Reply, write_json, status_body}
use visto_easy.Http.Webhook.{WebhookPaymentInfo, deliver, process_webhook}
use visto_easy.Http.Webhook.Delivery.{
  delivered, after_moves, lookup-deliver, deliver-payments, after_moves-stato,
}

-- The reply to an event that is processed.
abbrev pub processed : String → Reply
processed event = write_json 200 (status_body "processed" (field "event_id" (str event) end))

abbrev pub duplicate : String → Reply
duplicate event =
    write_json 200 (status_body "duplicate_ignored" (field "event_id" (str event) end))

module _ (e : Env) (info : WebhookPaymentInfo) (s : MemoryStore) (id : String) (pay : Pagamento)
    (succeeded : (to_lower info.event == "payment.succeeded") ≡ true)
    (named : (trim_space info.token == "") ≡ false)
    (found : find_payment info.token s.payments ≡ some (id, pay)) where
  -- The store in which the four moves begin.
  abbrev paid_store : MemoryStore
  paid_store =
      put_payment id (confirmed (e.now 1) pay)
        (record s { webhooks = insert (webhook_key "stripe" info.event_id) (e.now 0) s.webhooks })

  process-new :
      (webhook_key "stripe" info.event_id == ":") ≡ false
      → lookup (webhook_key "stripe" info.event_id) s.webhooks ≡ none
      → process_webhook e info s
        ≡ (deliver (skip 2 e) pay.pratica_id paid_store, processed info.event_id)
  unfolding process_webhook get_payment_by_token mark_webhook_event_processed
      confirm_payment_by_token
  process-new keyed new = rw succeeded (rw named (rw found (rw keyed (rw new (rw found refl)))))

  process-seen :
      (t : Time)
      → (webhook_key "stripe" info.event_id == ":") ≡ false
      → lookup (webhook_key "stripe" info.event_id) s.webhooks ≡ some t
      → process_webhook e info s ≡ (s, duplicate info.event_id)
  unfolding process_webhook get_payment_by_token mark_webhook_event_processed
  process-seen t keyed seen = rw succeeded (rw named (rw found (rw keyed (rw seen refl))))

-- The code of the first character.
first_code : String → ℕ
first_code String.[] = 0
first_code (String.◌∷◌ c s) = code c

key_shape :
    (event : String)
    → webhook_key "stripe" event ≡ String.◌++◌ "stripe" (String.◌++◌ ":" (trim_space event))
unfolding to_lower trim_space
key_shape event = refl

first_code-append : (c : Char) (s t : String) → first_code (String.◌++◌ (String.◌∷◌ c s) t) ≡ code c
unfolding first_code
first_code-append c s t =
    let eq : String.◌++◌ (String.◌∷◌ c s) t ≡ String.◌∷◌ c (String.◌++◌ s t) =
      λ i. append.cons c s t i in
    ap first_code eq

webhook_key-ne : (event : String) → (webhook_key "stripe" event == ":") ≡ false
unfolding first_code
webhook_key-ne event = elim (Bool-cases (webhook_key "stripe" event == ":")) [
  | inl same ↦
      let eq : 115 ≡ 58 =
        sym (
          ap first_code (key_shape event)
          ∙ first_code-append (String.char_at "s" 0) "tripe" (String.◌++◌ ":" (trim_space event)))
        ∙ ap first_code (eq_of_== (webhook_key "stripe" event) ":" same) in
      absurd (omega (arith, eq))
  | inr differ ↦ differ
]

-- A payment's webhook takes effect once. In a store whose payments are a map, for an event that is
-- a successful payment, names a token of a payment there, and has an identifier that was not seen
-- for the provider: the event is processed with 200, after which the token finds the payment as
-- confirmed at that time, and a second delivery of the same event, at any time, is replied to with
-- 200 as a duplicate and leaves the store as it is.
pub webhook-webhook :
    (e again : Env) (info : WebhookPaymentInfo) (s : MemoryStore) (id : String) (pay : Pagamento)
    → IsMap s.payments
    → (to_lower info.event == "payment.succeeded") ≡ true
    → (trim_space info.token == "") ≡ false
    → find_payment info.token s.payments ≡ some (id, pay)
    → lookup (webhook_key "stripe" info.event_id) s.webhooks ≡ none
    → let (s', reply) = process_webhook e info s in
      (reply ≡ processed info.event_id)
      × (get_payment_by_token info.token s' ≡ ok (confirmed (e.now 1) pay))
      × (process_webhook again info s' ≡ (s', duplicate info.event_id))
unfolding get_payment_by_token
webhook-webhook e again info s id pay h succeeded named found new =
    let keyed = webhook_key-ne info.event_id in
    let s1 = paid_store e info s id pay succeeded named found in
    let s' = deliver (skip 2 e) pay.pratica_id s1 in
    let kept = deliver-payments (skip 2 e) pay.pratica_id s1 in
    let token_kept = (lookup-find_payment info.token s.payments id pay h found).1 in
    let paid = confirmed (e.now 1) pay in
    let at : find_payment info.token s'.payments ≡ some (id, paid) =
      rw kept.0 (find_payment-insert info.token s.payments id pay paid h found token_kept) in
    let seen : lookup (webhook_key "stripe" info.event_id) s'.webhooks ≡ some (e.now 0) =
      rw kept.1 (lookup-insert_self (webhook_key "stripe" info.event_id) (e.now 0) s.webhooks) in
    rw (process-new e info s id pay succeeded named found keyed new)
      (refl, rw at refl, process-seen again info s' id paid succeeded named at (e.now 0) keyed seen)

-- A paid pratica is delivered: for an event that is a successful payment, names a token of a
-- payment in the store, and has an identifier that was not seen for the provider, where the
-- payment's pratica is in the store, it is there afterwards, COMPLETATA if it was waiting for the
-- payment or in one of the three states after that, and in the state in which it was otherwise.
pub webhook-delivered :
    (e : Env) (info : WebhookPaymentInfo) (s : MemoryStore) (id : String) (pay : Pagamento)
    (p : Pratica)
    → (to_lower info.event == "payment.succeeded") ≡ true
    → (trim_space info.token == "") ≡ false
    → find_payment info.token s.payments ≡ some (id, pay)
    → lookup (webhook_key "stripe" info.event_id) s.webhooks ≡ none
    → lookup pay.pratica_id s.pratiche ≡ some p
    → (q : Pratica) × (lookup pay.pratica_id (process_webhook e info s).0.pratiche ≡ some q)
      × (q.stato ≡ delivered p.stato)
webhook-delivered e info s id pay p succeeded named found new there =
    let keyed = webhook_key-ne info.event_id in
    let s1 = paid_store e info s id pay succeeded named found in
    (
      after_moves (skip 2 e) pay.pratica_id p,
      rw (process-new e info s id pay succeeded named found keyed new)
          (lookup-deliver (skip 2 e) pay.pratica_id s1 p there),
      after_moves-stato (skip 2 e) pay.pratica_id p,
    )
