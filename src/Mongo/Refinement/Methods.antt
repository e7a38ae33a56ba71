-- ===== src/Mongo/Refinement/Methods.antt =====
-- The methods of internal/store/mongo.go on pratiche, each against its namesake in memory.go.
use visto_easy.Prelude.{
  Bool, true, false, not, ◌≡◌, ◌≢◌, refl, ◌∙◌, if◌then◌else◌, inl, inr, String, none, some, ◌==◌,
  ◌||◌, ◌&&◌, Bool-cases, Option-cases, trim_space,
}
use visto_easy.Prelude.Clock.{Env, skip}
use visto_easy.Prelude.Dict.{lookup}
use visto_easy.Model.{
  Fields, Utente, Pratica, StatoPratica, Documento, inviata, integrazione_richiesta, is_bozza,
  is_in_lavorazione, is_sospesa,
}
use visto_easy.Store.State.{MemoryStore}
use visto_easy.Store.Pratiche as Memory
use visto_easy.Store.Documenti as MemoryDocumenti
use visto_easy.Store.Note as MemoryNote
use visto_easy.Store.Pratiche.{allowed_transition}
use visto_easy.Store.Documenti.{remove_documento}
use visto_easy.Mongo.Driver.{MongoStore}
use visto_easy.Mongo.Tables.{Tables, Serves, first}
use visto_easy.Mongo.Pratiche as Mongo
use visto_easy.Mongo.Refinement.Writes.{write_pratiche}
use visto_easy.Mongo.Refinement.Simulation.{Refines, Simulates, Simulates-guard}
use visto_easy.Mongo.Refinement.Keyed.{first-lookup_and, Keyed-erase_and}
use visto_easy.Mongo.Refinement.Documenti.{HasDistinct, without-remove}
use visto_easy.Mongo.Refinement.Reads.{find_by_lem, Simulates-then}
use visto_easy.Mongo.Refinement.Pratiche.{read_then, get_then, replace_pratica_lem}

not-and : (a b : Bool) → (not a || not b) ≡ not (a && b)
not-and true b = refl
not-and false b = refl

module _ {S : Type 0} (view : S → Tables) (db : MongoStore S) (h : Serves view db) (e : Env) (s : S)
    (m : MemoryStore) (r : Refines (view s) m) where
  pub update_pratica_as_draft_lem :
      (id user : String) (changes : Fields)
      → Simulates view
          (Mongo.update_pratica_as_draft db e id user changes s)
          (Memory.update_pratica_as_draft e id user changes m)
  unfolding Mongo.update_pratica_as_draft Memory.update_pratica_as_draft
  update_pratica_as_draft_lem id user changes = read_then view db h s m r id λ p at.
      elim (Bool-cases (p.utente_id == user)) [
        | inl own ↦ rw own (
            Simulates-guard view s m r _ (not (is_bozza p.stato))
              λ _. replace_pratica_lem view db h s m r id p _ _ at refl refl)
        | inr other ↦ rw other (record { replies = refl; refines = r })
      ]

  pub change_pratica_state_lem :
      (id actor : String) (next : StatoPratica) (note : String)
      → Simulates view
          (Mongo.change_pratica_state db e id actor next note s)
          (Memory.change_pratica_state e id actor next note m)
  unfolding Mongo.change_pratica_state Memory.change_pratica_state
  change_pratica_state_lem id actor next note = read_then view db h s m r id λ p at.
      Simulates-guard view s m r _ (not (allowed_transition p.stato next))
        λ _. replace_pratica_lem view db h s m r id p _ _ at refl refl

  pub add_nota_lem :
      (id actor message : String) (internal : Bool)
      → Simulates view
          (Mongo.add_nota db e id actor message internal s)
          (MemoryNote.add_nota e id actor message internal m)
  unfolding Mongo.add_nota MemoryNote.add_nota
  add_nota_lem id actor message internal = read_then view db h s m r id λ p at.
      Simulates-guard view s m r _ (trim_space message == "")
        λ _. replace_pratica_lem view db h s m r id p _ _ at refl refl

  pub submit_pratica_lem :
      (id user : String)
      → Simulates view (Mongo.submit_pratica db e id user s) (Memory.submit_pratica e id user m)
  unfolding Mongo.submit_pratica Memory.submit_pratica
  submit_pratica_lem id user = get_then view db h s m r id λ p at.
      Simulates-guard view s m r _ (not (p.utente_id == user) || not (is_bozza p.stato))
        λ _. change_pratica_state_lem id user inviata "pratica inviata dal richiedente"

  pub assign_operatore_lem :
      (id operatore_id actor : String)
      → Simulates view
          (Mongo.assign_operatore db e id operatore_id actor s)
          (MemoryNote.assign_operatore e id operatore_id actor m)
  unfolding Mongo.assign_operatore MemoryNote.assign_operatore
  assign_operatore_lem id operatore_id actor = read_then view db h s m r id λ p at.
      rw (find_by_lem h.users (λ (u : Utente). u.id) s r.users operatore_id)
        (elim (Option-cases (lookup operatore_id m.users)) [
          | inl absent ↦ rw absent (record { replies = refl; refines = r })
          | inr (u, there) ↦ rw there (replace_pratica_lem view db h s m r id p _ _ at refl refl)
        ])

  pub add_documento_lem :
      (id : String) (d : Documento)
      → Simulates view (Mongo.add_documento db e id d s) (MemoryDocumenti.add_documento e id d m)
  unfolding Mongo.add_documento MemoryDocumenti.add_documento
  add_documento_lem id d =
      read_then view db h s m r id λ p at. replace_pratica_lem view db h s m r id p _ _ at refl refl

  pub delete_documento_lem :
      (id doc : String)
      → HasDistinct id m
      → Simulates view
          (Mongo.delete_documento db e id doc s)
          (MemoryDocumenti.delete_documento e id doc m)
  unfolding Mongo.delete_documento MemoryDocumenti.delete_documento
  delete_documento_lem id doc distinct = read_then view db h s m r id λ p at.
      rw (without-remove doc p.documenti (distinct p at))
        (elim (Option-cases (remove_documento doc p.documenti)) [
          | inl absent ↦ rw absent (record { replies = refl; refines = r })
          | inr (ds, there) ↦ rw there (replace_pratica_lem view db h s m r id p _ _ at refl refl)
        ])

  -- A missing draft is refused by the database as one of another is, so it is left out here.
  pub delete_pratica_as_draft_lem :
      (id user : String)
      → lookup id m.pratiche ≢ none
      → Simulates view
          (Mongo.delete_pratica_as_draft db id user s)
          (Memory.delete_pratica_as_draft id user m)
  unfolding Mongo.delete_pratica_as_draft Memory.delete_pratica_as_draft
  delete_pratica_as_draft_lem id user there = elim (Option-cases (lookup id m.pratiche)) [
    | inl at ↦ absurd (there at)
    | inr (p, at) ↦
        let key = λ (q : Pratica). q.id in
        let c = λ (q : Pratica). q.utente_id == user && is_bozza q.stato in
        let q = λ (v : Pratica). v.id == id && c v in
        let found : first q (view s).pratiche ≡ (if c p then some p else none) =
          first-lookup_and key r.pratiche id c ∙ rw at refl in
        elim (Bool-cases (c p)) [
          | inl own ↦
              let (answered, after') = h.pratiche.delete_one_hit q s p (rw own at found) in
              rw (answered, at, not-and (p.utente_id == user) (is_bozza p.stato), own)
                (record {
                  replies = refl;
                  refines = write_pratiche r after' (Keyed-erase_and key r.pratiche id c p at own);
                })
          | inr other ↦
              let (answered, after') = h.pratiche.delete_one_miss q s (rw other at found) in
              rw (answered, at, not-and (p.utente_id == user) (is_bozza p.stato), other)
                (record { replies = refl; refines = rw after' r })
        ]
  ]

-- The part of `RequestDocumento` that a section over one state cannot hold.
module _ {S : Type 0} (view : S → Tables) (db : MongoStore S) (h : Serves view db) (e : Env) (s : S)
    (m : MemoryStore) (r : Refines (view s) m) where
  pub request_documento_lem :
      (id actor documento note : String)
      → Simulates view
          (Mongo.request_documento db e id actor documento note s)
          (MemoryNote.request_documento e id actor documento note m)
  unfolding Mongo.request_documento MemoryNote.request_documento
  request_documento_lem id actor documento note = get_then view db h s m r id λ p at.
      Simulates-guard view s m r _ (not (is_in_lavorazione p.stato) && not (is_sospesa p.stato))
        λ _.
          let changed =
            change_pratica_state_lem view db h e s m r id actor integrazione_richiesta
              "richiesta integrazione documentale" in
          Simulates-then changed
            (λ _ _. add_nota_lem view db h (skip 1 e) _ _ changed.refines id actor _ false)
