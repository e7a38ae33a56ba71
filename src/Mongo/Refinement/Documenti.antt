-- ===== src/Mongo/Refinement/Documenti.antt =====
-- DeleteDocumento takes out every document with the identifier in internal/store/mongo.go, and the
-- first one in memory.go, which is the same where no two documents share an identifier.
use visto_easy.Prelude.{
  true, false, ◌≡◌, refl, inl, inr, String, List, [], ◌∷◌, none, some, on_some, ◌==◌, eq_of_==,
  arith, Bool-cases,
}
use visto_easy.Prelude.Dict.{lookup}
use visto_easy.Model.{Documento, Pratica}
use visto_easy.Store.State.{MemoryStore}
use visto_easy.Store.Documenti.{find_documento, remove_documento}
use visto_easy.Mongo.Pratiche.{without_documento}

abbrev AreDistinct : List Documento → Type 0
AreDistinct [] = Unit
AreDistinct (d ∷ ds) = (find_documento d.id ds ≡ none) × AreDistinct ds

abbrev pub HasDistinct : String → MemoryStore → Type 0
HasDistinct id m = (p : Pratica) → lookup id m.pratiche ≡ some p → AreDistinct p.documenti

without-absent :
    (doc : String) (ds : List Documento)
    → find_documento doc ds ≡ none
    → without_documento doc ds ≡ (ds, false)
unfolding without_documento find_documento
without-absent doc [] h = refl
without-absent doc (d ∷ ds) h = elim (Bool-cases (d.id == doc)) [
  | inl same ↦ absurd (ground arith)
  | inr other ↦ rw other (rw (without-absent doc ds (rw other at h)) refl)
]

pub without-remove :
    (doc : String) (ds : List Documento)
    → AreDistinct ds
    → without_documento doc ds ≡ on_some (remove_documento doc ds) (ds, false) λ kept. (kept, true)
unfolding without_documento remove_documento
without-remove doc [] h = refl
without-remove doc (d ∷ ds) (n, h) = elim (Bool-cases (d.id == doc)) [
  | inl same ↦ rw same (rw (without-absent doc ds (rw (eq_of_== d.id doc same) at n)) refl)
  | inr other ↦ rw other (rw (without-remove doc ds h) (ground arith))
]
