-- ===== src/Mongo/Refinement/Pratiche.antt =====
-- The reads and writes of pratiche in internal/store/mongo.go against those of memory.go.
use visto_easy.Prelude.{
  Bool, ◌≡◌, refl, ◌∙◌, inl, inr, String, some, on_some, ◌==◌, ◌||◌, Option-cases,
}
use visto_easy.Prelude.Dict.{lookup}
use visto_easy.Model.{Pratica}
use visto_easy.Store.State.{MemoryStore, Outcome, ok, err, not_found, put_pratica, on_result}
use visto_easy.Store.Pratiche as Memory
use visto_easy.Mongo.Driver.{MongoStore, Reply, on_reply}
use visto_easy.Mongo.Tables.{Tables, Serves}
use visto_easy.Mongo.Pratiche as Mongo
use visto_easy.Mongo.Refinement.Keyed.{first-lookup, Keyed-insert_known, key-lookup}
use visto_easy.Mongo.Refinement.Reads
use visto_easy.Mongo.Refinement.Writes.{write_pratiche}
use visto_easy.Mongo.Refinement.Simulation.{Refines, Simulates}

module _ {S : Type 0} (view : S → Tables) (db : MongoStore S) (h : Serves view db) (s : S)
    (m : MemoryStore) (r : Refines (view s) m) where
  pub read_then :
      {A : Type 0} {k : Pratica → S × Reply A} {k' : Pratica → Outcome A} (id : String)
      → ((p : Pratica) → lookup id m.pratiche ≡ some p → Simulates view (k p) (k' p))
      → Simulates view
          (on_reply s (Mongo.get_pratica db id s) k)
          (on_some (lookup id m.pratiche) (m, err not_found) k')
  unfolding Mongo.get_pratica
  read_then id step = Reads.read_then h.pratiche (λ (p : Pratica). p.id) s r.pratiche id m r step

  -- The same where the method of memory.go calls GetPratica.
  pub get_then :
      {A : Type 0} {k : Pratica → S × Reply A} {k' : Pratica → Outcome A} (id : String)
      → ((p : Pratica) → lookup id m.pratiche ≡ some p → Simulates view (k p) (k' p))
      → Simulates view
          (on_reply s (Mongo.get_pratica db id s) k)
          (on_result (Memory.get_pratica id m) (λ x. (m, err x)) k')
  unfolding Memory.get_pratica
  get_then {k} {k'} id step = elim (Option-cases (lookup id m.pratiche)) [
    | inl at ↦ rw at (rw at at (read_then {k = k} {k' = k'} id step))
    | inr (p, at) ↦ rw at (rw at at (read_then {k = k} {k' = k'} id step))
  ]

  -- A replacement that keeps identifier and code is the write to the map.
  pub replace_pratica_lem :
      {A : Type 0} (id : String) (p p' : Pratica) (result : A)
      → lookup id m.pratiche ≡ some p
      → p'.id ≡ p.id
      → p'.codice ≡ p.codice
      → Simulates view (Mongo.replace_pratica db id p' result s) (put_pratica id p' m, ok result)
  unfolding Mongo.replace_pratica
  replace_pratica_lem id p p' result at same_id same_codice =
      let key = λ (q : Pratica). q.id in
      let keeps : ◌≡◌ {A = Pratica → Bool} (λ b. b.id == p'.id || b.codice == p'.codice)
          (λ b. b.id == p.id || b.codice == p.codice) =
        rw (same_id, same_codice) refl in
      let (n, answered, _, after') =
        h.pratiche.update_one_hit (λ q. q.id == id) (λ _. p') s p
          (first-lookup key r.pratiche id ∙ at) keeps in
      let k = same_id ∙ key-lookup key id m.pratiche p r.pratiche.keyed at in
      record {
        replies = rw answered refl;
        refines =
            write_pratiche r (rw answered after')
              (Keyed-insert_known key r.pratiche id (λ _. p') p k at);
      }
