-- ===== src/Mongo/Pratiche.antt =====
-- internal/store/mongo.go: the pratiche and their documents.
use visto_easy.Prelude.{
  ℕ, ◌+◌, Bool, true, false, not, ◌&&◌, ◌||◌, String, List, [], ◌∷◌, ◌++◌, none, ◌==◌,
  if◌then◌else◌, on_some, trim_space, leb,
}
use visto_easy.Prelude.Clock.{Env, skip}
use visto_easy.Model.{
  Fields, str, end, field, StatoPratica, inviata, integrazione_richiesta, is_bozza,
  is_in_lavorazione, is_sospesa, Pratica, Documento,
}
use visto_easy.Store.State.{not_found, invalid_state, forbidden_state}
use visto_easy.Store.Pratiche.{allowed_transition, created, patch, moved}
use visto_easy.Store.Documenti.{stored, holding, find_documento, with_documenti}
use visto_easy.Store.Note.{plain_event, noted, request_text}
use visto_easy.Mongo.Driver.{
  Answer, MongoStore, Reply, done, refused, fault, on_answer, on_reply, find_by, list_by,
}

-- The loop of `DeleteDocumento`: what it keeps, and whether it left anything out.
unfoldable pub without_documento : String → List Documento → List Documento × Bool
without_documento doc [] = ([], false)
without_documento doc (d ∷ ds) =
    let (kept, removed) = without_documento doc ds in
    if d.id == doc then (kept, true) else (d ∷ kept, removed)

module _ {S : Type 0} (db : MongoStore S) where
  unfoldable pub next_pratica_seq : S → S × Answer ℕ
  next_pratica_seq s =
      let (s', counted) =
        db.counters.find_one_and_upsert (λ c. c.key == "pratica")
          (λ c. record c { seq = c.seq + 1 }) (record { key = "pratica"; seq = 1 }) s in
      (s', on_answer counted Answer.failure λ c. Answer.answer c.seq)

  unfoldable pub create_pratica : Env → Pratica → String → S → S × Reply Pratica
  unfolding next_pratica_seq
  create_pratica e p actor s =
      let (s', counted) = next_pratica_seq s in
      on_answer counted (s', fault)
        λ seq.
          let p' = created e p actor seq in
          let (s'', inserted) = db.pratiche.insert_one p' s' in
          on_answer inserted (s'', fault) λ _. (s'', done p')

  unfoldable pub list_pratiche_by_user : String → S → List Pratica
  unfolding list_by
  list_pratiche_by_user user =
      list_by db.pratiche (λ p. p.utente_id == user) (λ p. p.creato_il) none

  unfoldable pub list_all_pratiche : S → List Pratica
  unfolding list_by
  list_all_pratiche = list_by db.pratiche (λ _. true) (λ p. p.creato_il) none

  unfoldable pub get_pratica : String → S → Reply Pratica
  get_pratica id = find_by db.pratiche λ p. p.id == id

  -- `s.pratiche.ReplaceOne(ctx, bson.M{"id": id}, p)` and the return of `result` after it.
  unfoldable pub replace_pratica : {A : Type 0} → String → Pratica → A → S → S × Reply A
  replace_pratica id p result s =
      let (s', replaced) = db.pratiche.update_one (λ q. q.id == id) (λ _. p) s in
      on_answer replaced (s', fault) λ _. (s', done result)

  unfoldable pub update_pratica_as_draft : Env → String → String → Fields → S → S × Reply Pratica
  update_pratica_as_draft e id user changes s = on_reply s (get_pratica id s) λ p.
      let p' = patch changes (e.now 0) p in
      if not (p.utente_id == user) || not (is_bozza p.stato)
      then (s, refused forbidden_state)
      else replace_pratica id p' p' s

  unfoldable pub delete_pratica_as_draft : String → String → S → S × Reply (Unit {0})
  delete_pratica_as_draft id user s =
      let (s', deleted) =
        db.pratiche.delete_one (λ p. p.id == id && (p.utente_id == user && is_bozza p.stato)) s in
      on_answer deleted (s', fault)
        λ n. if leb n 0 then (s', refused forbidden_state) else (s', done tt)

  unfoldable pub change_pratica_state :
      Env → String → String → StatoPratica → String → S → S × Reply Pratica
  change_pratica_state e id actor next note s = on_reply s (get_pratica id s) λ p.
      let p' = moved (e.uuid 0) id actor next note (e.now 0) p in
      if not (allowed_transition p.stato next)
      then (s, refused invalid_state)
      else replace_pratica id p' p' s

  unfoldable pub submit_pratica : Env → String → String → S → S × Reply Pratica
  submit_pratica e id user s = on_reply s (get_pratica id s) λ p.
      if not (p.utente_id == user) || not (is_bozza p.stato)
      then (s, refused forbidden_state)
      else change_pratica_state e id user inviata "pratica inviata dal richiedente" s

  -- Any error of the read of the operator is `ErrNotFound`.
  unfoldable pub assign_operatore : Env → String → String → String → S → S × Reply Pratica
  assign_operatore e id operatore_id actor s = on_reply s (get_pratica id s) λ p.
      let evt =
        plain_event (e.uuid 0) p.id actor "ASSEGNAZIONE_OPERATORE" "operatore assegnato"
          (field "operatore_id" (str operatore_id) end) (e.now 0) in
      let p' = record p {
        operatore_id = operatore_id;
        aggiornato_il = e.now 0;
        eventi = p.eventi ++ evt ∷ [];
      } in
      elim (find_by db.users (λ u. u.id == operatore_id) s) [
        | done _ ↦ replace_pratica id p' p' s
        | _ ↦ (s, refused not_found)
      ]

  unfoldable pub add_nota : Env → String → String → String → Bool → S → S × Reply Pratica
  add_nota e id actor message internal s = on_reply s (get_pratica id s) λ p.
      let nota = trim_space message in
      let p' = noted (e.uuid 0) actor nota internal (e.now 0) p in
      if nota == "" then (s, refused forbidden_state) else replace_pratica id p' p' s

  unfoldable pub request_documento : Env → String → String → String → String → S → S × Reply Pratica
  request_documento e id actor documento note s = on_reply s (get_pratica id s) λ p.
      if not (is_in_lavorazione p.stato) && not (is_sospesa p.stato)
      then (s, refused invalid_state)
      else let (s', changed) =
          change_pratica_state e id actor integrazione_richiesta
            "richiesta integrazione documentale" s in
        on_reply s' changed λ _. add_nota (skip 1 e) id actor (request_text documento note) false s'

  unfoldable pub add_documento : Env → String → Documento → S → S × Reply Documento
  add_documento e id d s = on_reply s (get_pratica id s) λ p.
      let d' = stored (e.uuid 0) id (e.now 0) d in replace_pratica id (holding d' (e.now 1) p) d' s

  unfoldable pub list_documenti : String → S → S × Reply (List Documento)
  list_documenti pratica_id s = on_reply s (get_pratica pratica_id s) λ p. (s, done p.documenti)

  unfoldable pub get_documento : String → String → S → S × Reply Documento
  unfolding find_documento
  get_documento pratica_id id s =
      on_reply s (get_pratica pratica_id s)
        λ p. on_some (find_documento id p.documenti) (s, refused not_found) λ d. (s, done d)

  unfoldable pub delete_documento : Env → String → String → S → S × Reply Bool
  unfolding without_documento
  delete_documento e id doc s = on_reply s (get_pratica id s) λ p.
      let (kept, removed) = without_documento doc p.documenti in
      if not removed
      then (s, done false)
      else replace_pratica id (with_documenti kept (e.now 0) p) true s
