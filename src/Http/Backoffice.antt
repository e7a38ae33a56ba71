-- ===== src/Http/Backoffice.antt =====
-- internal/httpapi/server.go: the handlers under /api/bo that work on a pratica or on the sessions
-- of a user. The router lets a caller without a role of the back office not come here.
pub mod Permissions
use visto_easy.Prelude.{
  ℕ, ◌+◌, suc, Bool, true, false, not, ◌&&◌, String, List, [], ◌∷◌, Option, none, some, ◌==◌,
  if◌then◌else◌, on_some, trim_space,
}
use visto_easy.Prelude.Int.{ℤ, pos}
use visto_easy.Prelude.Clock.{Env, skip}
use visto_easy.Model.{
  Fields, str, int, bool, end, field, StatoPratica, visto_emesso, completata, Pratica,
}
use visto_easy.Store.State.{
  MemoryStore, Outcome, Result, ok, err, on_result, not_found, invalid_state, StoreError,
}
use visto_easy.Store.Pratiche.{change_pratica_state}
use visto_easy.Store.Note.{assign_operatore, add_nota, request_documento}
use visto_easy.Store.Users.{get_user_by_id}
use visto_easy.Store.Sessions.{
  list_refresh_sessions_by_user, revoke_all_refresh_sessions_by_user, revoke_refresh_session,
}
use visto_easy.Http.Reply.{
  Claims, Client, Reply, Served, write_json, write_err, undecoded, security_event,
  record_security_event, record_audit_event, pratica_body, status_body, sessions_body,
}

-- `string(stato)`
abbrev stato_name : StatoPratica → String
stato_name StatoPratica.bozza = "BOZZA"
stato_name StatoPratica.inviata = "INVIATA"
stato_name StatoPratica.in_lavorazione = "IN_LAVORAZIONE"
stato_name StatoPratica.integrazione_richiesta = "INTEGRAZIONE_RICHIESTA"
stato_name StatoPratica.sospesa = "SOSPESA"
stato_name StatoPratica.approvata = "APPROVATA"
stato_name StatoPratica.rifiutata = "RIFIUTATA"
stato_name StatoPratica.attende_pagamento = "ATTENDE_PAGAMENTO"
stato_name StatoPratica.pagamento_ricevuto = "PAGAMENTO_RICEVUTO"
stato_name StatoPratica.visto_in_elaborazione = "VISTO_IN_ELABORAZIONE"
stato_name StatoPratica.visto_emesso = "VISTO_EMESSO"
stato_name StatoPratica.completata = "COMPLETATA"
stato_name StatoPratica.annullata = "ANNULLATA"
stato_name (StatoPratica.other_stato s) = s

-- What the four handlers below do with the outcome of the store's method: an error is a 404 or a
-- 400, a success is logged with the details and replied with.
abbrev audited :
    Env → Client → Claims → String → String → Fields → String → String → Outcome Pratica → Served
audited e client c action id details absent invalid o =
    on_result o.1
      (λ x.
        (o.0, elim x [ StoreError.not_found ↦ write_err 404 absent | _ ↦ write_err 400 invalid ]))
      λ p. (
        record_audit_event e client (some c) action "pratica" id details o.0,
        write_json 200 (pratica_body p),
      )

pub record StatoRequest : Type 0 where
  pub stato : StatoPratica
  pub nota : String

unfoldable pub handle_bo_change_stato :
    Env → Client → Claims → String → Option StatoRequest → MemoryStore → Served
handle_bo_change_stato e client c id body s =
    on_some body (s, undecoded)
      λ req.
        audited (skip 1 e) client c "PRATICA_CHANGE_STATE" id
          (field "new_state" (str (stato_name req.stato)) (field "note" (str req.nota) end))
          "pratica non trovata" "transizione non valida"
          (change_pratica_state e id c.user_id req.stato req.nota s)

-- The body is the operator's identifier.
unfoldable pub handle_bo_assegna :
    Env → Client → Claims → String → Option String → MemoryStore → Served
handle_bo_assegna e client c id body s =
    on_some body (s, undecoded)
      λ operatore.
        audited (skip 1 e) client c "PRATICA_ASSIGN_OPERATOR" id
          (field "operatore_id" (str (trim_space operatore)) end) "pratica o operatore non trovato"
          "assegnazione non valida" (assign_operatore e id (trim_space operatore) c.user_id s)

pub record NotaRequest : Type 0 where
  pub messaggio : String
  pub interna : Bool

unfoldable pub handle_bo_add_nota :
    Env → Client → Claims → String → Option NotaRequest → MemoryStore → Served
handle_bo_add_nota e client c id body s =
    on_some body (s, undecoded)
      λ req.
        audited (skip 1 e) client c "PRATICA_ADD_NOTE" id (field "interna" (bool req.interna) end)
          "pratica non trovata" "nota non valida"
          (add_nota e id c.user_id req.messaggio req.interna s)

pub record RichiestaRequest : Type 0 where
  pub documento : String
  pub nota : String

unfoldable pub handle_bo_richiedi_doc :
    Env → Client → Claims → String → Option RichiestaRequest → MemoryStore → Served
handle_bo_richiedi_doc e client c id body s =
    on_some body (s, undecoded)
      λ req.
        audited (skip 2 e) client c "PRATICA_REQUEST_DOCUMENT" id
          (field "documento" (str req.documento) end) "pratica non trovata"
          "richiesta documento non valida"
          (request_documento e id c.user_id req.documento req.nota s)

-- The second move's error is dropped.
unfoldable pub handle_bo_invia_visto : Env → Client → Claims → String → MemoryStore → Served
handle_bo_invia_visto e client c id s =
    let (s1, r) = change_pratica_state e id c.user_id visto_emesso "invio manuale visto" s in
    on_result r
      (λ x. (
        s1,
        elim x [
          | StoreError.invalid_state ↦ write_err 400 "stato non compatibile per invio visto"
          | _ ↦ write_err 404 "pratica non trovata"
        ],
      ))
      λ _.
        let s2 =
          (change_pratica_state (skip 1 e) id c.user_id completata "pratica completata" s1).0 in
        (
          record_audit_event (skip 2 e) client (some c) "PRATICA_SEND_VISTO" "pratica" id end s2,
          write_json 200 (status_body "visto inviato" end),
        )

-- `if claims == nil || claims.Role != ADMIN { … }`
abbrev for_admin : Option Claims → MemoryStore → (Claims → Served) → Served
for_admin claims s k =
    on_some claims (s, write_err 403 "solo admin")
      λ c. if not (c.role == "ADMIN") then (s, write_err 403 "solo admin") else k c

-- The user whose sessions an administrator names.
abbrev for_user : String → MemoryStore → (String → Served) → Served
for_user raw s k =
    let user = trim_space raw in
    if user == ""
    then (s, write_err 400 "utente non valido")
    else on_result (get_user_by_id user s) (λ _. (s, write_err 404 "utente non trovato"))
        λ _. k user

unfoldable pub handle_bo_list_user_sessions : Env → Option Claims → String → MemoryStore → Served
handle_bo_list_user_sessions e claims raw s = for_admin claims s λ c. for_user raw s λ user.
    let (s', items) = list_refresh_sessions_by_user e user s in
    (s', write_json 200 (sessions_body items))

unfoldable pub handle_bo_revoke_user_sessions :
    Env → Client → Option Claims → String → MemoryStore → Served
handle_bo_revoke_user_sessions e client claims raw s = for_admin claims s λ c.
    for_user raw s λ user.
      let (s1, revoked) = revoke_all_refresh_sessions_by_user e user s in
      let s2 =
        record_security_event (skip 1 e)
          (record (security_event "ADMIN_SESSIONS_REVOKED" "bulk") {
            user_id = c.user_id;
            metadata = field "target_user_id" (str user) (field "revoked" (int (pos revoked)) end);
          })
          s1 in
      (
        record_audit_event (skip 2 e) client (some c) "ADMIN_REVOKE_USER_SESSIONS" "refresh_session"
            user (field "revoked" (int (pos revoked)) end) s2,
        write_json 200 (
            status_body "revoked"
              (field "user_id" (str user) (field "revoked" (int (pos revoked)) end))),
      )

unfoldable pub handle_bo_revoke_session :
    Env → Client → Option Claims → String → MemoryStore → Served
handle_bo_revoke_session e client claims raw s = for_admin claims s λ c.
    let session = trim_space raw in
    if session == ""
    then (s, write_err 400 "sessione non valida")
    else let (s1, r) = revoke_refresh_session e session "admin_manual_revoke" s in
      on_result r (λ _. (s1, write_err 500 "errore revoca sessione"))
        λ found.
          if not found
          then (s1, write_err 404 "sessione non trovata o già revocata")
          else let s2 =
              record_security_event (skip 1 e)
                (record (security_event "ADMIN_SESSION_REVOKED" "single") {
                  user_id = c.user_id;
                  metadata = field "session_id" (str session) end;
                })
                s1 in
            (
              record_audit_event (skip 2 e) client (some c) "ADMIN_REVOKE_SESSION" "refresh_session"
                  session end s2,
              write_json 200 (status_body "revoked" (field "session_id" (str session) end)),
            )
