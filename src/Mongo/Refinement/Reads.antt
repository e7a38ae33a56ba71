-- ===== src/Mongo/Refinement/Reads.antt =====
-- What a read by key of internal/store/mongo.go gives, against the map of memory.go.
use visto_easy.Prelude.{◌≡◌, refl, inl, inr, String, List, some, on_some, Bool, Option-cases}
use visto_easy.Prelude.Dict.{Dict, lookup}
use visto_easy.Store.State.{MemoryStore, Outcome, Result, err, not_found, on_result}
use visto_easy.Mongo.Driver.{Collection, Reply, done, refused, on_reply, find_by}
use visto_easy.Mongo.Tables.{Tables, Answers}
use visto_easy.Mongo.Refinement.Keyed.{Keyed, has_key, first-lookup}
use visto_easy.Mongo.Refinement.Simulation.{Refines, Simulates, as_reply}

module _ {S D : Type 0} {view : S → Tables} {docs : Tables → List D}
    {put : List D → Tables → Tables} {clash : D → D → Bool} {c : Collection S D}
    (a : Answers view docs put clash c) (key : D → String) {d : Dict D} (s : S)
    (h : Keyed key (docs (view s)) d) where
  pub find_by_lem :
      (id : String)
      → find_by c (has_key key id) s ≡ on_some (lookup id d) (refused not_found) (λ v. done v)
  unfolding find_by
  find_by_lem id = rw (a.find_one_lem (has_key key id) s) (rw (first-lookup key h id) refl)

  -- A method that reads an entry first and goes on with it.
  pub read_then :
      {A : Type 0} {k : D → S × Reply A} {k' : D → Outcome A} (id : String) (m : MemoryStore)
      → Refines (view s) m
      → ((v : D) → lookup id d ≡ some v → Simulates view (k v) (k' v))
      → Simulates view
          (on_reply s (find_by c (has_key key id) s) k)
          (on_some (lookup id d) (m, err not_found) k')
  read_then id m r step = rw (find_by_lem id) (elim (Option-cases (lookup id d)) [
    | inl at ↦ rw at (record { replies = refl; refines = r })
    | inr (v, at) ↦ rw at (step v at)
  ])

module _ {S A B : Type 0} {view : S → Tables} where
  -- A method that goes on with the result of another.
  pub Simulates-then :
      {o : S × Reply A} {o' : Outcome A} {k : A → S × Reply B} {k' : A → Outcome B}
      → Simulates view o o'
      → ((a : A) → o'.1 ≡ Result.ok a → Simulates view (k a) (k' a))
      → Simulates view (on_reply o.0 o.1 k) (on_result o'.1 (λ x. (o'.0, err x)) k')
  Simulates-then {o} {o'} {k} {k'} h step = rw h.replies (continue o'.1 refl)
    where
      continue :
          (x : Result A)
          → o'.1 ≡ x
          → Simulates view (on_reply o.0 (as_reply x) k) (on_result x (λ y. (o'.0, err y)) k')
      continue (Result.ok a) e = step a e
      continue (err x) e = record { replies = refl; refines = h.refines }
