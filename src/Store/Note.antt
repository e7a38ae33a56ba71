-- ===== src/Store/Note.antt =====
-- internal/store/memory.go: what an operator does to a pratica besides moving it: the assignment,
-- the notes and the request of a further document.
pub mod Requests
use Prim.Native.String.{◌++◌}
use visto_easy.Prelude.{
  Bool, true, false, not, ◌&&◌, String, List, [], ◌∷◌, Option, none, some, ◌==◌, if◌then◌else◌,
  on_some, trim_space,
}
use visto_easy.Prelude.{◌++◌ as ◌++ₗ◌}
use visto_easy.Prelude.Clock.{Time, Env, skip, format_rfc3339}
use visto_easy.Prelude.Dict.{lookup, insert}
use visto_easy.Model.{
  Fields, str, end, field, other_stato, integrazione_richiesta, is_in_lavorazione, is_sospesa,
  Pratica, EventoPratica,
}
use visto_easy.Store.State.{
  MemoryStore, Outcome, Result, ok, err, on_result, not_found, invalid_state, forbidden_state,
  put_pratica,
}
use visto_easy.Store.Pratiche.{get_pratica, change_pratica_state}

-- An event that leaves the state as it is.
abbrev pub plain_event : String → String → String → String → String → Fields → Time → EventoPratica
plain_event uuid id actor tipo message metadata now = record {
  id = uuid;
  pratica_id = id;
  attore_id = actor;
  tipo_evento = tipo;
  da_stato = other_stato "";
  a_stato = other_stato "";
  messaggio = message;
  metadata = metadata;
  creato_il = now;
}

unfoldable pub assign_operatore : Env → String → String → String → MemoryStore → Outcome Pratica
assign_operatore e id operatore_id actor s =
    on_some (lookup id s.pratiche) (s, err not_found)
      λ p.
        on_some (lookup operatore_id s.users) (s, err not_found)
          λ u.
            let evt =
              plain_event (e.uuid 0) p.id actor "ASSEGNAZIONE_OPERATORE" "operatore assegnato"
                (field "operatore_id" (str operatore_id) end) (e.now 0) in
            let p' = record p {
              operatore_id = operatore_id;
              aggiornato_il = e.now 0;
              eventi = p.eventi ++ₗ evt ∷ [];
            } in
            (put_pratica id p' s, ok p')

-- A line with its time under the notes that are there.
abbrev add_line : String → Time → String → String
add_line notes now nota =
    (if notes == "" then notes else notes ++ "\n") ++ format_rfc3339 now ++ " | " ++ nota

-- The record that `AddNota` writes.
abbrev pub noted : String → String → String → Bool → Time → Pratica → Pratica
noted uuid actor nota internal now p =
    let evt =
      plain_event uuid p.id actor "NOTA_AGGIUNTA" nota
        (field "scope" (str (if internal then "interna" else "richiedente")) end) now in
    record p {
      note_interne = if internal then add_line p.note_interne now nota else p.note_interne;
      note_richiedente =
          if internal then p.note_richiedente else add_line p.note_richiedente now nota;
      aggiornato_il = now;
      eventi = p.eventi ++ₗ evt ∷ [];
    }

unfoldable pub add_nota : Env → String → String → String → Bool → MemoryStore → Outcome Pratica
add_nota e id actor message internal s =
    on_some (lookup id s.pratiche) (s, err not_found)
      λ p.
        let nota = trim_space message in
        let p' = noted (e.uuid 0) actor nota internal (e.now 0) p in
        if nota == "" then (s, err forbidden_state) else (put_pratica id p' s, ok p')

-- The text of the note that asks for a document.
unfoldable pub request_text : String → String → String
request_text documento note =
    let asked = trim_space documento in
    let msg = if trim_space note == "" then asked else asked ++ " - " ++ trim_space note in
    if msg == "" then "documento aggiuntivo richiesto" else msg

-- The read and the two writes are three critical sections; here nothing runs between them.
unfoldable pub request_documento :
    Env → String → String → String → String → MemoryStore → Outcome Pratica
unfolding get_pratica
request_documento e id actor documento note s =
    on_result (get_pratica id s) (λ x. (s, err x))
      λ p.
        if not (is_in_lavorazione p.stato) && not (is_sospesa p.stato)
        then (s, err invalid_state)
        else let (s', changed) =
            change_pratica_state e id actor integrazione_richiesta
              "richiesta integrazione documentale" s in
          on_result changed (λ x. (s', err x))
            λ _. add_nota (skip 1 e) id actor (request_text documento note) false s'
