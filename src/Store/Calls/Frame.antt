-- ===== src/Store/Calls/Frame.antt =====
-- A call touches the pratica that it names and no other.
use visto_easy.Prelude.{
  ◌≡◌, refl, ◌≢◌, ◌∙◌, Bool, false, String, arith, on_some-cases, if-cases, not, ◌&&◌, ◌||◌, ◌==◌,
  trim_space,
}
use visto_easy.Prelude.Clock.{Env, skip}
use visto_easy.Prelude.Dict.{Dict, lookup, insert, lookup-insert, lookup-erase}
use visto_easy.Model.{
  Pratica, integrazione_richiesta, StatoPratica, is_bozza, is_in_lavorazione, is_sospesa, inviata,
}
use visto_easy.Store.State.{MemoryStore, Outcome, on_result-cases}
use visto_easy.Store.Pratiche.{
  allowed_transition, get_pratica, create_pratica, update_pratica_as_draft, delete_pratica_as_draft,
  change_pratica_state, submit_pratica,
}
use visto_easy.Store.Documenti.{add_documento, remove_documento, delete_documento}
use visto_easy.Store.Note.{assign_operatore, add_nota, request_documento}
use visto_easy.Store.Calls.{
  Call, creates, patches, deletes, submits, changes, adds_documento, deletes_documento, assigns,
  notes, requests, call,
}

-- The key of the pratica that a call may write.
abbrev pub key : Env → Call → String
key e (creates p actor) = e.uuid 0
key e (patches id user d) = id
key e (deletes id user) = id
key e (submits id user) = id
key e (changes id actor to note) = id
key e (adds_documento id d) = id
key e (deletes_documento id doc) = id
key e (assigns id operator actor) = id
key e (notes id actor message internal) = id
key e (requests id actor documento note) = id

-- The pratica under `j` reads as before.
abbrev Keeps : {A : Type 0} → String → MemoryStore → Outcome A → Type 0
Keeps j s o = lookup j o.0.pratiche ≡ lookup j s.pratiche

lookup-insert_ne :
    (id j : String) (p : Pratica) (m : Dict Pratica)
    → id ≢ j
    → lookup j (insert id p m) ≡ lookup j m
lookup-insert_ne id j p m n = ground (arith, lookup-insert j id p m)

change_pratica_state-Keeps :
    (e : Env) (id j actor note : String) (to : StatoPratica) (s : MemoryStore)
    → id ≢ j
    → Keeps j s (change_pratica_state e id actor to note s)
unfolding change_pratica_state
change_pratica_state-Keeps e id j actor note to s n =
    on_some-cases (Keeps j s) (lookup id s.pratiche) (λ _. refl)
      λ p _.
        if-cases (Keeps j s) (not (allowed_transition p.stato to)) (λ _. refl)
          λ _. lookup-insert_ne id j _ s.pratiche n

add_nota-Keeps :
    (e : Env) (id j actor message : String) (internal : Bool) (s : MemoryStore)
    → id ≢ j
    → Keeps j s (add_nota e id actor message internal s)
unfolding add_nota
add_nota-Keeps e id j actor message internal s n =
    on_some-cases (Keeps j s) (lookup id s.pratiche) (λ _. refl)
      λ p _.
        if-cases (Keeps j s) (trim_space message == "") (λ _. refl)
          λ _. lookup-insert_ne id j _ s.pratiche n

request_documento-Keeps :
    (e : Env) (id j actor documento note : String) (s : MemoryStore)
    → id ≢ j
    → Keeps j s (request_documento e id actor documento note s)
unfolding request_documento
request_documento-Keeps e id j actor documento note s n =
    on_result-cases (Keeps j s) (get_pratica id s) (λ _ _. refl)
      λ p _.
        if-cases (Keeps j s) (not (is_in_lavorazione p.stato) && not (is_sospesa p.stato))
          (λ _. refl)
          λ _.
            let (s', r) =
              change_pratica_state e id actor integrazione_richiesta
                "richiesta integrazione documentale" s in
            let first : lookup j s'.pratiche ≡ lookup j s.pratiche =
              change_pratica_state-Keeps e id j actor _ integrazione_richiesta s n in
            on_result-cases (Keeps j s) r (λ _ _. first)
              λ _ _. add_nota-Keeps (skip 1 e) id j actor _ false s' n ∙ first

-- Pratiche are independent: a call of a method that writes pratiche leaves every pratica as it is
-- but the one under the key that the call names, or, for a creation, under the new identifier.
pub lookup-call :
    (e : Env) (c : Call) (s : MemoryStore) (j : String)
    → key e c ≢ j
    → lookup j (call e c s).pratiche ≡ lookup j s.pratiche
unfolding call create_pratica update_pratica_as_draft delete_pratica_as_draft submit_pratica
    add_documento delete_documento assign_operatore
lookup-call e (creates p actor) s j n = lookup-insert_ne (e.uuid 0) j _ s.pratiche n
lookup-call e (patches id user d) s j n =
    on_some-cases (Keeps j s) (lookup id s.pratiche) (λ _. refl)
      λ p _.
        if-cases (Keeps j s) (not (p.utente_id == user)) (λ _. refl)
          λ _.
            if-cases (Keeps j s) (not (is_bozza p.stato)) (λ _. refl)
              λ _. lookup-insert_ne id j _ s.pratiche n
lookup-call e (deletes id user) s j n =
    on_some-cases (Keeps j s) (lookup id s.pratiche) (λ _. refl)
      λ p _.
        if-cases (Keeps j s) (not (p.utente_id == user) || not (is_bozza p.stato)) (λ _. refl)
          λ _. ground (arith, lookup-erase j id s.pratiche)
lookup-call e (submits id user) s j n =
    on_result-cases (Keeps j s) (get_pratica id s) (λ _ _. refl)
      λ p _.
        if-cases (Keeps j s) (not (p.utente_id == user) || not (is_bozza p.stato)) (λ _. refl)
          λ _. change_pratica_state-Keeps e id j user _ inviata s n
lookup-call e (changes id actor to note) s j n = change_pratica_state-Keeps e id j actor note to s n
lookup-call e (adds_documento id d) s j n =
    on_some-cases (Keeps j s) (lookup id s.pratiche) (λ _. refl)
      λ p _. lookup-insert_ne id j _ s.pratiche n
lookup-call e (deletes_documento id doc) s j n =
    on_some-cases (Keeps j s) (lookup id s.pratiche) (λ _. refl)
      λ p _.
        on_some-cases (Keeps j s) (remove_documento doc p.documenti) (λ _. refl)
          λ ds _. lookup-insert_ne id j _ s.pratiche n
lookup-call e (assigns id operator actor) s j n =
    on_some-cases (Keeps j s) (lookup id s.pratiche) (λ _. refl)
      λ p _.
        on_some-cases (Keeps j s) (lookup operator s.users) (λ _. refl)
          λ u _. lookup-insert_ne id j _ s.pratiche n
lookup-call e (notes id actor m i) s j n = add_nota-Keeps e id j actor m i s n
lookup-call e (requests id actor d m) s j n = request_documento-Keeps e id j actor d m s n
