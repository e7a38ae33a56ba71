-- ===== src/Http/Pagamenti.antt =====
-- internal/httpapi/server.go: the handlers of payments. The call of the payment provider is a
-- parameter; the mails that are sent on the way are left out.
use visto_easy.Prelude.{
  not, ◌&&◌, ◌||◌, String, Option, none, some, ◌==◌, if◌then◌else◌, on_some, trim_space, to_lower,
}
use visto_easy.Prelude.Int.{ℤ, pos, ltb_ℤ}
use visto_easy.Prelude.Clock.{Env, skip}
use visto_easy.Model.{str, num, end, field, attende_pagamento, Pagamento}
use visto_easy.Store.State.{MemoryStore, on_result, not_found, invalid_state, StoreError}
use visto_easy.Store.Pratiche.{change_pratica_state}
use visto_easy.Store.Payments.{
  create_payment, update_payment_checkout, get_payment_by_token, refund_payment_by_token,
}
use visto_easy.Http.Reply.{
  Claims, Client, Reply, Served, write_json, write_err, undecoded, security_event,
  record_security_event, record_audit_event, payment_body, refund_body,
}

-- The provider: whether `STRIPE_SECRET_KEY` is set, and the checkout session that its API makes
-- for a payment, an identifier and a link; none where the call fails in any way.
pub record Provider : Type 0 where
  pub secret : String
  pub checkout : Pagamento → Option (String × String)

-- None for an error.
unfoldable pub enrich_payment_checkout_session :
    Provider → Pagamento → MemoryStore → MemoryStore × Option Pagamento
enrich_payment_checkout_session provider pay s =
    if not (to_lower (trim_space pay.provider) == "stripe")
    then (s, some pay)
    else if trim_space provider.secret == ""
    then (s, some pay)
    else on_some (provider.checkout pay) (s, none)
        λ session.
          if trim_space session.0 == "" || trim_space session.1 == ""
          then (s, none)
          else let (s', r) = update_payment_checkout pay.id session.0 session.1 s in
            on_result r (λ _. (s', none)) λ updated. (s', some updated)

-- `if provider == "" { provider = "stripe" }`
abbrev provider_or : String → String
provider_or p = if p == "" then "stripe" else p

-- What handleCreatePagamentoSessione and handleBOCreateLinkPagamento do alike: a payment is made
-- and enriched, and the pratica is moved on, an error of the move being dropped.
unfoldable new_link :
    Env
    → Provider
    → String
    → String
    → String
    → ℤ
    → (Pagamento → MemoryStore → Served)
    → MemoryStore
    → Served
unfolding enrich_payment_checkout_session
new_link e provider actor pratica_id name amount k s =
    let (s1, r) = create_payment e pratica_id (provider_or name) amount s in
    on_result r (λ _. (s1, write_err 404 "pratica non trovata"))
      λ pay.
        let (s2, enriched) = enrich_payment_checkout_session provider pay s1 in
        on_some enriched (s2, write_err 502 "errore creazione sessione pagamento provider")
          λ pay'.
            k pay'
              (change_pratica_state (skip 2 e) pratica_id actor attende_pagamento
                "link pagamento generato" s2).0

pub record SessioneRequest : Type 0 where
  pub pratica_id : String
  pub provider : String
  pub importo : ℤ

-- The router lets a caller without claims, or without a role of the back office, not come here.
unfoldable pub handle_create_pagamento_sessione :
    Env → Provider → Claims → Option SessioneRequest → MemoryStore → Served
unfolding new_link
handle_create_pagamento_sessione e provider c body s =
    on_some body (s, undecoded)
      λ req.
        new_link e provider c.user_id req.pratica_id req.provider req.importo
          (λ pay s'. (s', write_json 201 (payment_body pay))) s

unfoldable pub handle_bo_create_link_pagamento :
    Env → Provider → Client → Claims → String → Option SessioneRequest → MemoryStore → Served
unfolding new_link
handle_bo_create_link_pagamento e provider client c id body s =
    on_some body (s, undecoded)
      λ req.
        new_link e provider c.user_id id req.provider req.importo
          (λ pay s'. (
            record_audit_event (skip 3 e) client (some c) "PRATICA_CREATE_PAYMENT_LINK" "pratica" id
                (field "payment_token" (str pay.token)
                  (field "provider" (str pay.provider) (field "amount" (num pay.importo) end)))
                s',
            write_json 201 (payment_body pay),
          ))
          s

unfoldable pub handle_get_pagamento : String → MemoryStore → Served
handle_get_pagamento token s =
    on_result (get_payment_by_token token s) (λ _. (s, write_err 404 "pagamento non trovato"))
      λ pay. (s, write_json 200 (payment_body pay))

pub record RefundRequest : Type 0 where
  pub amount : ℤ
  pub reason : String

abbrev refund_error : StoreError → Reply
refund_error not_found = write_err 404 "pagamento non trovato"
refund_error invalid_state = write_err 409 "rimborso non consentito nello stato corrente"
refund_error _ = write_err 500 "errore rimborso"

-- The body is decoded if it has a length: `some none` is one that is not decoded, and `none` a
-- request without one, which reads as the zero request.
unfoldable pub handle_bo_refund_pagamento :
    Env → Client → Claims → String → Option (Option RefundRequest) → MemoryStore → Served
handle_bo_refund_pagamento e client c raw body s =
    let token = trim_space raw in
    if token == ""
    then (s, write_err 400 "token pagamento non valido")
    else on_some (on_some body (some (record { amount = pos 0; reason = "" })) λ b. b)
        (s, undecoded)
        λ req.
          let (s1, r) = refund_payment_by_token token s in
          on_result r (λ x. (s1, refund_error x))
            λ pay.
              let outcome =
                if ltb_ℤ (pos 0) req.amount && ltb_ℤ req.amount pay.importo
                then "partial"
                else "full" in
              let reason = trim_space req.reason in
              let s2 =
                record_security_event e
                  (record (security_event "PAYMENT_REFUNDED" outcome) {
                    user_id = c.user_id;
                    metadata = field "payment_token" (str token) (
                        field "pratica_id" (str pay.pratica_id) (
                          field "provider" (str pay.provider)
                            (field "reason" (str reason) (field "amount" (num req.amount) end))));
                  })
                  s1 in
              (
                record_audit_event (skip 1 e) client (some c) "PAYMENT_REFUND" "payment" token
                    (field "pratica_id" (str pay.pratica_id) (
                      field "provider" (str pay.provider) (
                        field "amount" (num req.amount)
                          (field "reason" (str reason) (field "outcome" (str outcome) end)))))
                    s2,
                write_json 200 (refund_body pay),
              )
