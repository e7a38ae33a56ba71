-- ===== src/Http/Pratiche.antt =====
-- internal/httpapi/server.go: the handlers under /api/pratiche, for the pratica itself. A `none`
-- in place of a request's body is a body that `decodeJSON` refuses. What handleCreatePratica sends
-- by mail, in a goroutine of its own, is left out.
pub mod Ownership
pub mod Listing
use visto_easy.Prelude.{
  Bool, true, false, not, ◌&&◌, String, List, [], Option, none, some, ◌==◌, if◌then◌else◌, on_some,
}
use visto_easy.Prelude.Int.{ℤ, pos}
use visto_easy.Prelude.Clock.{Env}
use visto_easy.Model.{Fields, end, other_stato, other_priorita, Pratica}
use visto_easy.Store.State.{
  MemoryStore, Outcome, Result, ok, err, on_result, StoreError, not_found, already_exists,
  invalid_state, forbidden_state,
}
use visto_easy.Store.Pratiche.{
  create_pratica, get_pratica, list_pratiche_by_user, list_all_pratiche, update_pratica_as_draft,
  delete_pratica_as_draft, submit_pratica,
}
use visto_easy.Http.Reply.{
  Claims, Reply, Served, write_json, write_err, undecoded, no_body, pratica_body, pratiche_body,
  eventi_body,
}
use visto_easy.Http.Access.{is_richiedente}

-- The body of a request for a new pratica.
pub record CreateRequest : Type 0 where
  pub tipo_visto : String
  pub paese_dest : String
  pub dati_anagrafici : Fields
  pub dati_passaporto : Fields

-- The pratica that handleCreatePratica hands to the store; the other fields are zero.
abbrev pub requested : Claims → CreateRequest → Pratica
requested c req = record {
  id = "";
  codice = "";
  utente_id = c.user_id;
  operatore_id = "";
  tipo_visto = req.tipo_visto;
  paese_dest = req.paese_dest;
  stato = other_stato "";
  priorita = other_priorita "";
  note_interne = "";
  note_richiedente = "";
  dati_anagrafici = req.dati_anagrafici;
  dati_passaporto = req.dati_passaporto;
  importo_dovuto = pos 0;
  valuta = "";
  creato_il = 0;
  aggiornato_il = 0;
  inviato_il = none;
  completato_il = none;
  documenti = [];
  eventi = [];
}

-- `if claims == nil || claims.Role != RICHIEDENTE { … }`
abbrev for_richiedente : Option Claims → MemoryStore → (Claims → Served) → Served
for_richiedente claims s k =
    on_some claims (s, write_err 403 "solo richiedente")
      λ c. if not (is_richiedente c) then (s, write_err 403 "solo richiedente") else k c

unfoldable pub handle_create_pratica :
    Env → Option Claims → Option CreateRequest → MemoryStore → Served
handle_create_pratica e claims body s = for_richiedente claims s λ c.
    on_some body (s, undecoded)
      λ req.
        let (s', r) = create_pratica e (requested c req) c.user_id s in
        on_result r (λ _. (s', write_err 500 "errore creazione pratica"))
          λ p. (s', write_json 201 (pratica_body p))

unfoldable pub handle_list_mie_pratiche : Option Claims → MemoryStore → Served
handle_list_mie_pratiche claims s =
    on_some claims (s, write_err 401 "non autenticato")
      λ c.
        if is_richiedente c
        then (s, write_json 200 (pratiche_body (list_pratiche_by_user c.user_id s)))
        else (s, write_json 200 (pratiche_body (list_all_pratiche s)))

-- The pratica is read before the claims are looked at.
unfoldable pub handle_get_pratica : Option Claims → String → MemoryStore → Served
handle_get_pratica claims id s =
    on_result (get_pratica id s) (λ _. (s, write_err 404 "pratica non trovata"))
      λ p.
        on_some claims (s, write_err 401 "non autenticato")
          λ c.
            if is_richiedente c && not (p.utente_id == c.user_id)
            then (s, write_err 403 "accesso negato")
            else (s, write_json 200 (pratica_body p))

unfoldable pub handle_list_eventi_pratica : Option Claims → String → MemoryStore → Served
handle_list_eventi_pratica claims id s =
    on_result (get_pratica id s) (λ _. (s, write_err 404 "pratica non trovata"))
      λ p.
        on_some claims (s, write_err 401 "non autenticato")
          λ c.
            if is_richiedente c && not (p.utente_id == c.user_id)
            then (s, write_err 403 "accesso negato")
            else (s, write_json 200 (eventi_body p.eventi))

-- `if errors.Is(err, store.ErrNotFound) { 404 } …`, and another reply for another error.
abbrev pub not_found_or : Reply → StoreError → Reply
not_found_or other not_found = write_err 404 "pratica non trovata"
not_found_or other _ = other

unfoldable pub handle_patch_pratica :
    Env → Option Claims → String → Option Fields → MemoryStore → Served
handle_patch_pratica e claims id body s = for_richiedente claims s λ c.
    on_some body (s, undecoded)
      λ changes.
        let (s', r) = update_pratica_as_draft e id c.user_id changes s in
        on_result r (λ x. (s', not_found_or (write_err 403 "modifica non consentita") x))
          λ p. (s', write_json 200 (pratica_body p))

unfoldable pub handle_delete_pratica : Option Claims → String → MemoryStore → Served
handle_delete_pratica claims id s = for_richiedente claims s λ c.
    let (s', r) = delete_pratica_as_draft id c.user_id s in
    on_result r (λ x. (s', not_found_or (write_err 403 "eliminazione non consentita") x))
      λ _. (s', write_json 204 no_body)

unfoldable pub handle_submit_pratica : Env → Option Claims → String → MemoryStore → Served
handle_submit_pratica e claims id s = for_richiedente claims s λ c.
    let (s', r) = submit_pratica e id c.user_id s in
    on_result r (λ x. (s', not_found_or (write_err 403 "submit non consentito") x))
      λ p. (s', write_json 200 (pratica_body p))
