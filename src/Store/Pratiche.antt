-- ===== src/Store/Pratiche.antt =====
-- internal/store/memory.go: the life of a pratica, from draft to delivery.
pub mod Transitions
pub mod Drafts
use Prim.Native.Nat.{◌%◌, ◌^◌}
use Prim.Native.String.{◌++◌ as ◌++ₛ◌}
use visto_easy.Prelude.{
  ℕ, ◌+◌, Bool, true, false, not, ◌&&◌, ◌||◌, String, List, [], ◌∷◌, ◌++◌, Option, none, some, ◌==◌,
  if◌then◌else◌, on_some, trim_space,
}
use visto_easy.Prelude.Clock.{Time, Env, decimal, year}
use visto_easy.Prelude.Dict.{lookup, insert, erase, values}
use visto_easy.Model.{
  Json, Fields, str, obj, end, field, StatoPratica, bozza, inviata, in_lavorazione,
  integrazione_richiesta, sospesa, approvata, rifiutata, attende_pagamento, pagamento_ricevuto,
  visto_in_elaborazione, visto_emesso, completata, annullata, other_stato, normale,
  is_empty_priorita, is_bozza, is_inviata, is_completata, Pratica, EventoPratica,
}
use visto_easy.Store.State.{
  MemoryStore, Outcome, Result, ok, err, on_result, not_found, invalid_state, forbidden_state,
  put_pratica,
}
use visto_easy.Store.Order.{latest_first}

-- `allowedTransitions[from][to]`: a missing row or entry reads as false.
unfoldable pub allowed_transition : StatoPratica → StatoPratica → Bool
allowed_transition bozza annullata = true
allowed_transition bozza inviata = true
allowed_transition inviata in_lavorazione = true
allowed_transition inviata rifiutata = true
allowed_transition in_lavorazione sospesa = true
allowed_transition in_lavorazione integrazione_richiesta = true
allowed_transition in_lavorazione approvata = true
allowed_transition in_lavorazione rifiutata = true
allowed_transition integrazione_richiesta approvata = true
allowed_transition integrazione_richiesta in_lavorazione = true
allowed_transition sospesa in_lavorazione = true
allowed_transition sospesa rifiutata = true
allowed_transition approvata attende_pagamento = true
allowed_transition attende_pagamento pagamento_ricevuto = true
allowed_transition pagamento_ricevuto visto_in_elaborazione = true
allowed_transition visto_in_elaborazione visto_emesso = true
allowed_transition visto_emesso completata = true
allowed_transition _ _ = false

-- The event that `CreatePratica` logs.
abbrev pub created_event : String → String → String → Time → EventoPratica
created_event uuid id actor now = record {
  id = uuid;
  pratica_id = id;
  attore_id = actor;
  tipo_evento = "PRATICA_CREATA";
  da_stato = other_stato "";
  a_stato = bozza;
  messaggio = "";
  metadata = end;
  creato_il = now;
}

-- The record that `CreatePratica` stores, with its number.
abbrev pub created : Env → Pratica → String → ℕ → Pratica
created e p actor seq = record p {
  id = e.uuid 0;
  codice = "VST-" ++ₛ decimal 0 (year (e.now 0)) ++ₛ "-" ++ₛ decimal 6 seq;
  stato = bozza;
  priorita = if is_empty_priorita p.priorita then normale else p.priorita;
  valuta = "EUR";
  creato_il = e.now 0;
  aggiornato_il = e.now 0;
  eventi = created_event (e.uuid 1) (e.uuid 0) actor (e.now 0) ∷ [];
}

unfoldable pub create_pratica : Env → Pratica → String → MemoryStore → Outcome Pratica
create_pratica e p actor s =
    let seq = (s.pratica_counter + 1) % 2 ^ 64 in
    let p' = created e p actor seq in
    (record s { pratica_counter = seq; pratiche = insert p'.id p' s.pratiche }, ok p')

-- The loop of `ListPraticheByUser`.
unfoldable pub of_user : String → List Pratica → List Pratica
of_user user [] = []
of_user user (p ∷ ps) = let rest = of_user user ps in if p.utente_id == user then p ∷ rest else rest

unfoldable pub list_pratiche_by_user : String → MemoryStore → List Pratica
list_pratiche_by_user user s =
    latest_first (λ (p : Pratica). p.creato_il) (of_user user (values s.pratiche))

unfoldable pub list_all_pratiche : MemoryStore → List Pratica
list_all_pratiche s = latest_first (λ (p : Pratica). p.creato_il) (values s.pratiche)

unfoldable pub get_pratica : String → MemoryStore → Result Pratica
get_pratica id s = on_some (lookup id s.pratiche) (err not_found) λ p. ok p

-- `data[key]` of a decoded JSON object.
unfoldable pub get_field : String → Fields → Option Json
get_field k end = none
get_field k (field j v fs) = if j == k then some v else get_field k fs

-- `if v, ok := x.(string); ok && strings.TrimSpace(v) != ""`, with what the field keeps otherwise.
abbrev pub text_or : Option Json → String → String
text_or (some (str v)) old = if trim_space v == "" then old else v
text_or _ old = old

-- `if v, ok := x.(map[string]any); ok`
abbrev pub object_or : Option Json → Fields → Fields
object_or (some (obj v)) old = v
object_or _ old = old

abbrev pub patch : Fields → Time → Pratica → Pratica
patch changes now p = record p {
  tipo_visto = text_or (get_field "tipo_visto" changes) p.tipo_visto;
  paese_dest = text_or (get_field "paese_dest" changes) p.paese_dest;
  dati_anagrafici = object_or (get_field "dati_anagrafici" changes) p.dati_anagrafici;
  dati_passaporto = object_or (get_field "dati_passaporto" changes) p.dati_passaporto;
  aggiornato_il = now;
}

unfoldable pub update_pratica_as_draft :
    Env → String → String → Fields → MemoryStore → Outcome Pratica
update_pratica_as_draft e id user changes s =
    on_some (lookup id s.pratiche) (s, err not_found)
      λ p.
        if not (p.utente_id == user)
        then (s, err forbidden_state)
        else if not (is_bozza p.stato)
        then (s, err forbidden_state)
        else let p' = patch changes (e.now 0) p in (put_pratica id p' s, ok p')

unfoldable pub delete_pratica_as_draft : String → String → MemoryStore → Outcome (Unit {0})
delete_pratica_as_draft id user s =
    on_some (lookup id s.pratiche) (s, err not_found)
      λ p.
        if not (p.utente_id == user) || not (is_bozza p.stato)
        then (s, err forbidden_state)
        else (record s { pratiche = erase id s.pratiche }, ok tt)

-- The event that `ChangePraticaState` logs.
abbrev pub state_event :
    String → String → String → StatoPratica → StatoPratica → String → Time → EventoPratica
state_event uuid id actor from next note now = record {
  id = uuid;
  pratica_id = id;
  attore_id = actor;
  tipo_evento = "STATO_CAMBIATO";
  da_stato = from;
  a_stato = next;
  messaggio = note;
  metadata = end;
  creato_il = now;
}

-- The record that `ChangePraticaState` writes.
abbrev pub moved : String → String → String → StatoPratica → String → Time → Pratica → Pratica
moved uuid id actor next note now p = record p {
  stato = next;
  aggiornato_il = now;
  inviato_il = if is_inviata next then some now else p.inviato_il;
  completato_il = if is_completata next then some now else p.completato_il;
  eventi = p.eventi ++ state_event uuid id actor p.stato next note now ∷ [];
}

unfoldable pub change_pratica_state :
    Env → String → String → StatoPratica → String → MemoryStore → Outcome Pratica
change_pratica_state e id actor next note s =
    on_some (lookup id s.pratiche) (s, err not_found)
      λ p.
        if not (allowed_transition p.stato next)
        then (s, err invalid_state)
        else let p' = moved (e.uuid 0) id actor next note (e.now 0) p in
          (put_pratica id p' s, ok p')

-- The read and the change are two critical sections; here nothing runs between them.
unfoldable pub submit_pratica : Env → String → String → MemoryStore → Outcome Pratica
unfolding get_pratica
submit_pratica e id user s =
    on_result (get_pratica id s) (λ x. (s, err x))
      λ p.
        if not (p.utente_id == user) || not (is_bozza p.stato)
        then (s, err forbidden_state)
        else change_pratica_state e id user inviata "pratica inviata dal richiedente" s
