-- ===== src/Tests/Life.antt =====
-- The life of a pratica, at concrete inputs.
use visto_easy.Prelude.{
  ◌≡◌, ◌≢◌, refl, ◌⊎◌, inl, inr, true, false, String, List, [], ◌∷◌, some, on_some, String-discrete,
  ne_of_==,
}
use visto_easy.Prelude.Clock.{Env}
use visto_easy.Prelude.Dict.{lookup, insert}
use visto_easy.Model.{
  StatoPratica, bozza, inviata, in_lavorazione, integrazione_richiesta, completata, Pratica,
}
use visto_easy.Store.State.{empty_store, ok}
use visto_easy.Store.Pratiche.{
  create_pratica, submit_pratica, change_pratica_state, allowed_transition, get_pratica,
}
use visto_easy.Store.Pratiche.Transitions.{HasPayment}
use visto_easy.Store.Pratiche.Drafts.{IsDraftOf, submit_pratica_lem, is_ok}
use visto_easy.Store.Note.{request_documento}
use visto_easy.Store.Note.Requests.{IsIn, request_documento_lem}
use visto_easy.Store.Calls.{Call, changes, notes, call, run, AreFresh}
use visto_easy.Store.Calls.Frame.{lookup-call}
use visto_easy.Store.History.Runs.{HasHistory}
use visto_easy.Store.History.Life.{
  Survives, run-HasHistory, run-HasPayment, run-Survives, run-IsTerminal,
}
use visto_easy.Tests.Data.{at, asked, pratica_in, holding_in, life}

-- The pratica after its life.
abbrev grown : Pratica
grown = on_some (lookup "a" (run life empty_store).pratiche) asked λ p. p

life-grown : lookup "a" (run life empty_store).pratiche ≡ some grown
unfolding run call lookup create_pratica submit_pratica get_pratica change_pratica_state
    allowed_transition String-discrete insert
life-grown = refl

life-AreFresh : AreFresh life empty_store
unfolding lookup
life-AreFresh = ((refl, refl, refl), (tt, (tt, (tt, (tt, (tt, tt))))))

grown-paid : grown.stato ≡ StatoPratica.pagamento_ricevuto
unfolding run call lookup create_pratica submit_pratica get_pratica change_pratica_state
    allowed_transition String-discrete insert
grown-paid = refl

run-HasHistory_example : HasHistory "a" grown
run-HasHistory_example = run-HasHistory life "a" grown life-AreFresh life-grown

run-HasPayment_example : HasPayment grown.eventi
run-HasPayment_example = run-HasPayment life "a" grown life-AreFresh life-grown (rw grown-paid refl)

-- Calls that come later.
abbrev later_calls : List (Env × Call)
later_calls =
    (at 7 "g", changes "p" "boss" in_lavorazione "") ∷ (at 8 "h", notes "p" "boss" "x" true) ∷ []

held : (stato : StatoPratica) → lookup "p" (holding_in stato).pratiche ≡ some (pratica_in stato)
unfolding lookup String-discrete
held stato = refl

run-Survives_example : Survives "p" (pratica_in inviata) (run later_calls (holding_in inviata))
run-Survives_example =
    run-Survives later_calls (holding_in inviata) "p" (pratica_in inviata) (tt, (tt, tt))
      (held inviata) λ e. cc

run-IsTerminal_example :
    (q : Pratica) × (lookup "p" (run later_calls (holding_in completata)).pratiche ≡ some q)
    × (q.stato ≡ completata)
run-IsTerminal_example =
    run-IsTerminal later_calls (holding_in completata) "p" (pratica_in completata) (tt, (tt, tt))
      (held completata) (inr (inl refl))

q-ne-p : ◌≢◌ {A = String} "q" "p"
unfolding String-discrete
q-ne-p = ne_of_== "q" "p" refl

lookup-call_example :
    lookup "p"
      (call (at 7 "g") (changes "q" "boss" in_lavorazione "") (holding_in inviata)).pratiche
    ≡ lookup "p" (holding_in inviata).pratiche
lookup-call_example =
    lookup-call (at 7 "g") (changes "q" "boss" in_lavorazione "") (holding_in inviata) "p" q-ne-p

submit_pratica_lem_example :
    let o = submit_pratica (at 9 "x") "p" "anna" (holding_in bozza) in
    (IsDraftOf "anna" "p" (holding_in bozza)
      × ((q : Pratica) × (o.1 ≡ ok q)
          × (lookup "p" o.0.pratiche ≡ some q)
          × (q.stato ≡ inviata)
          × (q.inviato_il ≡ some 9)))
    ⊎ ((¬ IsDraftOf "anna" "p" (holding_in bozza)) × (o.0 ≡ holding_in bozza) × (is_ok o.1 ≡ false))
submit_pratica_lem_example = submit_pratica_lem (at 9 "x") "p" "anna" (holding_in bozza)

request_documento_lem_example :
    let o = request_documento (at 9 "x") "p" "boss" "passaporto" "" (holding_in in_lavorazione) in
    (IsIn in_lavorazione "p" (holding_in in_lavorazione)
      × ((q : Pratica) × (o.1 ≡ ok q)
          × (lookup "p" o.0.pratiche ≡ some q)
          × (q.stato ≡ integrazione_richiesta)))
    ⊎ ((¬ IsIn in_lavorazione "p" (holding_in in_lavorazione))
        × (o.0 ≡ holding_in in_lavorazione)
        × (is_ok o.1 ≡ false))
request_documento_lem_example =
    request_documento_lem (at 9 "x") "p" "boss" "passaporto" "" (holding_in in_lavorazione)
