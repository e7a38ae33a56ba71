-- ===== src/Store/Documenti.antt =====
-- internal/store/memory.go: the documents of a pratica.
use Prim.Native.String.{◌++◌}
use visto_easy.Prelude.{
  Bool, true, false, String, List, [], ◌∷◌, Option, none, some, ◌==◌, if◌then◌else◌, on_some,
}
use visto_easy.Prelude.{◌++◌ as ◌++ₗ◌}
use visto_easy.Prelude.Clock.{Time, Env}
use visto_easy.Prelude.Dict.{lookup}
use visto_easy.Model.{Pratica, Documento}
use visto_easy.Store.State.{MemoryStore, Outcome, Result, ok, err, not_found, put_pratica}

-- The document that `AddDocumento` stores, and the pratica that holds it.
abbrev pub stored : String → String → Time → Documento → Documento
stored uuid id now d = record d {
  id = uuid;
  pratica_id = id;
  caricato_il = now;
  stato_validazione = "PENDING";
  s3_key = "pratiche/" ++ id ++ "/documenti/" ++ uuid ++ "_" ++ d.nome_file;
}

abbrev pub holding : Documento → Time → Pratica → Pratica
holding d now p = record p { documenti = p.documenti ++ₗ d ∷ []; aggiornato_il = now }

unfoldable pub add_documento : Env → String → Documento → MemoryStore → Outcome Documento
add_documento e id d s =
    on_some (lookup id s.pratiche) (s, err not_found)
      λ p.
        let d' = stored (e.uuid 0) id (e.now 0) d in
        (put_pratica id (holding d' (e.now 1) p) s, ok d')

unfoldable pub list_documenti : String → MemoryStore → Result (List Documento)
list_documenti pratica_id s =
    on_some (lookup pratica_id s.pratiche) (err not_found) λ p. ok p.documenti

-- The loop of `GetDocumento`: the first document with the identifier.
unfoldable pub find_documento : String → List Documento → Option Documento
find_documento id [] = none
find_documento id (d ∷ ds) = if d.id == id then some d else find_documento id ds

unfoldable pub get_documento : String → String → MemoryStore → Result Documento
unfolding find_documento
get_documento pratica_id id s =
    on_some (lookup pratica_id s.pratiche) (err not_found)
      λ p. on_some (find_documento id p.documenti) (err not_found) λ d. ok d

-- The loop of `DeleteDocumento`: the list without the first document with the identifier, and
-- nothing where there is none.
unfoldable pub remove_documento : String → List Documento → Option (List Documento)
remove_documento id [] = none
remove_documento id (d ∷ ds) =
    let rest = on_some (remove_documento id ds) none λ ds'. some (d ∷ ds') in
    if d.id == id then some ds else rest

-- The pratica that `DeleteDocumento` stores.
abbrev pub with_documenti : List Documento → Time → Pratica → Pratica
with_documenti ds now p = record p { documenti = ds; aggiornato_il = now }

unfoldable pub delete_documento : Env → String → String → MemoryStore → Outcome Bool
delete_documento e id doc s =
    on_some (lookup id s.pratiche) (s, err not_found)
      λ p.
        on_some (remove_documento doc p.documenti) (s, ok false)
          λ ds. (put_pratica id (with_documenti ds (e.now 0) p) s, ok true)
