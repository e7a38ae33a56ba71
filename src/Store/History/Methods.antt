-- ===== src/Store/History/Methods.antt =====
-- Each method of the store that writes a pratica has an effect of the specification, whatever its
-- arguments, errors included.
use text.Mathlib.TextEquality.{eq_iff}
use visto_easy.Prelude.{
  ◌≡◌, refl, ◌≢◌, Bool, false, String, none, arith, on_some-cases, if-cases, ◌==◌, trim_space, not,
  ◌&&◌, ◌||◌,
}
use visto_easy.Prelude.Clock.{Env, skip}
use visto_easy.Prelude.Dict.{lookup}
use visto_easy.Model.{
  Fields, StatoPratica, integrazione_richiesta, inviata, is_bozza, is_in_lavorazione, is_sospesa,
  Pratica, Documento,
}
use visto_easy.Store.State.{MemoryStore, Outcome, on_result-cases}
use visto_easy.Store.Pratiche.{
  allowed_transition, create_pratica, get_pratica, patch, update_pratica_as_draft,
  delete_pratica_as_draft, change_pratica_state, submit_pratica,
}
use visto_easy.Store.Documenti.{add_documento, remove_documento, delete_documento}
use visto_easy.Store.Note.{assign_operatore, add_nota, request_documento}
use visto_easy.Store.History.{Effect, keep, create, update, delete, Effects, stop, next}
use visto_easy.Store.History.Evolution.{moved-Evolves, logged-Evolves, silent-Evolves}

-- The store that a method leaves, whatever its result.
abbrev IsEffect : {A : Type 0} → MemoryStore → Outcome A → Type 0
IsEffect s o = Effect s o.0

abbrev AreEffects : {A : Type 0} → MemoryStore → Outcome A → Type 0
AreEffects s o = Effects s o.0

noted-ne-changed : ◌≢◌ {A = String} "NOTA_AGGIUNTA" "STATO_CAMBIATO"
noted-ne-changed = ground (arith, eq_iff "NOTA_AGGIUNTA" "STATO_CAMBIATO")

assigned-ne-changed : ◌≢◌ {A = String} "ASSEGNAZIONE_OPERATORE" "STATO_CAMBIATO"
assigned-ne-changed = ground (arith, eq_iff "ASSEGNAZIONE_OPERATORE" "STATO_CAMBIATO")

-- The identifier that package uuid makes is not in use yet.
pub create_pratica-Effect :
    (e : Env) (p : Pratica) (actor : String) (s : MemoryStore)
    → lookup (e.uuid 0) s.pratiche ≡ none
    → p.inviato_il ≡ none
    → p.completato_il ≡ none
    → Effect s (create_pratica e p actor s).0
unfolding create_pratica
create_pratica-Effect e p actor s fresh i c =
    create (e.uuid 0) _ fresh
      (record {
        first = _;
        logged = refl;
        created = refl;
        draft = refl;
        keyed = refl;
        not_sent = i;
        not_closed = c;
      })
      refl

module _ (e : Env) (id : String) where
  pub update_pratica_as_draft-Effect :
      (user : String) (changes : Fields) (s : MemoryStore)
      → Effect s (update_pratica_as_draft e id user changes s).0
  unfolding update_pratica_as_draft
  update_pratica_as_draft-Effect user changes s =
      on_some-cases (IsEffect s) (lookup id s.pratiche) (λ _. keep refl)
        λ p found.
          if-cases (IsEffect s) (not (p.utente_id == user)) (λ _. keep refl)
            λ _.
              if-cases (IsEffect s) (not (is_bozza p.stato)) (λ _. keep refl)
                λ _.
                  update id p (patch changes (e.now 0) p) found
                    (silent-Evolves p _ refl refl refl refl refl) refl

  pub delete_pratica_as_draft-Effect :
      (user : String) (s : MemoryStore) → Effect s (delete_pratica_as_draft id user s).0
  unfolding delete_pratica_as_draft
  delete_pratica_as_draft-Effect user s =
      on_some-cases (IsEffect s) (lookup id s.pratiche) (λ _. keep refl)
        λ p found.
          if-cases (IsEffect s) (not (p.utente_id == user) || not (is_bozza p.stato))
            (λ _. keep refl) λ own. delete id p found (ground arith) refl

  pub change_pratica_state-Effect :
      (actor : String) (to : StatoPratica) (note : String) (s : MemoryStore)
      → Effect s (change_pratica_state e id actor to note s).0
  unfolding change_pratica_state
  change_pratica_state-Effect actor to note s =
      on_some-cases (IsEffect s) (lookup id s.pratiche) (λ _. keep refl)
        λ p found.
          if-cases (IsEffect s) (not (allowed_transition p.stato to)) (λ _. keep refl)
            λ edge.
              update id p _ found
                (moved-Evolves (e.uuid 0) id actor to note (e.now 0) p (ground arith)) refl

  pub submit_pratica-Effect :
      (user : String) (s : MemoryStore) → Effect s (submit_pratica e id user s).0
  unfolding submit_pratica
  submit_pratica-Effect user s =
      on_result-cases (IsEffect s) (get_pratica id s) (λ _ _. keep refl)
        λ p _.
          if-cases (IsEffect s) (not (p.utente_id == user) || not (is_bozza p.stato))
            (λ _. keep refl) λ _. change_pratica_state-Effect user inviata _ s

  pub add_documento-Effect : (d : Documento) (s : MemoryStore) → Effect s (add_documento e id d s).0
  unfolding add_documento
  add_documento-Effect d s =
      on_some-cases (IsEffect s) (lookup id s.pratiche) (λ _. keep refl)
        λ p found. update id p _ found (silent-Evolves p _ refl refl refl refl refl) refl

  pub delete_documento-Effect :
      (doc : String) (s : MemoryStore) → Effect s (delete_documento e id doc s).0
  unfolding delete_documento
  delete_documento-Effect doc s =
      on_some-cases (IsEffect s) (lookup id s.pratiche) (λ _. keep refl)
        λ p found.
          on_some-cases (IsEffect s) (remove_documento doc p.documenti) (λ _. keep refl)
            λ ds _. update id p _ found (silent-Evolves p _ refl refl refl refl refl) refl

  pub assign_operatore-Effect :
      (operator actor : String) (s : MemoryStore)
      → Effect s (assign_operatore e id operator actor s).0
  unfolding assign_operatore
  assign_operatore-Effect operator actor s =
      on_some-cases (IsEffect s) (lookup id s.pratiche) (λ _. keep refl)
        λ p found.
          on_some-cases (IsEffect s) (lookup operator s.users) (λ _. keep refl)
            λ u _.
              update id p _ found
                (logged-Evolves p _ _ assigned-ne-changed refl refl refl refl refl) refl

  pub add_nota-Effect :
      (actor message : String) (internal : Bool) (s : MemoryStore)
      → Effect s (add_nota e id actor message internal s).0
  unfolding add_nota
  add_nota-Effect actor message internal s =
      on_some-cases (IsEffect s) (lookup id s.pratiche) (λ _. keep refl)
        λ p found.
          if-cases (IsEffect s) (trim_space message == "") (λ _. keep refl)
            λ _.
              update id p _ found (logged-Evolves p _ _ noted-ne-changed refl refl refl refl refl)
                refl

-- The one method that writes twice.
pub request_documento-Effects :
    (e : Env) (id actor documento note : String) (s : MemoryStore)
    → Effects s (request_documento e id actor documento note s).0
unfolding request_documento
request_documento-Effects e id actor documento note s =
    on_result-cases (AreEffects s) (get_pratica id s) (λ _ _. stop)
      λ p _.
        if-cases (AreEffects s) (not (is_in_lavorazione p.stato) && not (is_sospesa p.stato))
          (λ _. stop)
          λ _.
            let (s', r) =
              change_pratica_state e id actor integrazione_richiesta
                "richiesta integrazione documentale" s in
            let first : Effects s s' =
              next stop (change_pratica_state-Effect e id actor integrazione_richiesta _ s) in
            on_result-cases (AreEffects s) r (λ _ _. first)
              λ _ _. next first (add_nota-Effect (skip 1 e) id actor _ false s')
