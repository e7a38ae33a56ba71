-- ===== src/Store/Note/Requests.antt =====
-- RequestDocumento of internal/store/memory.go: when a request goes through, and what it leaves.
use Prim.Native.String.{◌++◌}
use visto_easy.Prelude.{
  ◌≡◌, refl, ◌≢◌, ◌⊎◌, inl, inr, ◌∙◌, ap, Bool, true, false, not, ◌||◌, ◌&&◌, String, none, some,
  arith, Option-cases, ◌==◌, if-cases, is_space, trim_space,
}
use visto_easy.Prelude.Text.Trim.{
  has_ink, has_ink-append, trim_space-ne-empty, trim_space_twice-ne-empty,
}
use visto_easy.Prelude.Clock.{Env, skip}
use visto_easy.Prelude.Dict.{lookup, lookup-insert_self}
use visto_easy.Model.{
  StatoPratica, in_lavorazione, integrazione_richiesta, is_in_lavorazione, is_sospesa, Pratica,
}
use visto_easy.Store.State.{MemoryStore, Outcome, ok, err, invalid_state, not_found, put_pratica}
use visto_easy.Store.Pratiche.{allowed_transition, moved, change_pratica_state}
use visto_easy.Store.Pratiche.Drafts.{is_ok}
use visto_easy.Store.Note.{noted, add_nota, request_text, request_documento}

default_text-ne-empty : trim_space "documento aggiuntivo richiesto" ≢ ""
unfolding has_ink is_space
default_text-ne-empty = trim_space-ne-empty _ refl

dash-has_ink : has_ink " - " ≡ true
unfolding has_ink is_space
dash-has_ink = refl

joined-ne-empty : (asked more : String) → trim_space (asked ++ " - " ++ more) ≢ ""
joined-ne-empty asked more = trim_space-ne-empty _ (
    has_ink-append asked (" - " ++ more)
    ∙ (ap (λ b. has_ink asked || b) (has_ink-append " - " more) ∙ or_inked (has_ink asked)))
  where
    or_inked : (b : Bool) → (b || (has_ink " - " || has_ink more)) ≡ true
    or_inked true = refl
    or_inked false = rw dash-has_ink refl

-- The note of a request is never blank, whatever the operator sends.
trim_space-request_text-ne-empty :
    (documento note : String) → trim_space (request_text documento note) ≢ ""
unfolding request_text
trim_space-request_text-ne-empty documento note =
    if-cases (λ t. trim_space t ≢ "") _ (λ _. default_text-ne-empty)
      (if-cases (λ t. (t == "") ≡ false → trim_space t ≢ "") (trim_space note == "")
        (λ _ n. trim_space_twice-ne-empty documento (ground arith))
        (λ _ _. joined-ne-empty (trim_space documento) (trim_space note)))

blank-false : (t : String) → t ≢ "" → (t == "") ≡ false
blank-false t n = ground arith

change_along_edge :
    (e : Env) (id actor note : String) (to : StatoPratica) (s : MemoryStore) (p : Pratica)
    → lookup id s.pratiche ≡ some p
    → allowed_transition p.stato to ≡ true
    → let q = moved (e.uuid 0) id actor to note (e.now 0) p in
      change_pratica_state e id actor to note s ≡ (put_pratica id q s, ok q)
unfolding change_pratica_state
change_along_edge e id actor note to s p found edge = rw found (rw edge refl)

add_nota_succeeds :
    (e : Env) (id actor message : String) (internal : Bool) (s : MemoryStore) (p : Pratica)
    → lookup id s.pratiche ≡ some p
    → trim_space message ≢ ""
    → let q = noted (e.uuid 0) actor (trim_space message) internal (e.now 0) p in
      add_nota e id actor message internal s ≡ (put_pratica id q s, ok q)
unfolding add_nota
add_nota_succeeds e id actor message internal s p found n =
    rw found (rw (blank-false (trim_space message) n) refl)

-- The pratica under the key is in the given state.
pub record IsIn (a : StatoPratica) (id : String) (s : MemoryStore) : Type 0 where
  pub pratica : Pratica
  pub found : lookup id s.pratiche ≡ some pratica
  pub state : pratica.stato ≡ a

in_lavorazione-cases : (a : StatoPratica) → (a ≡ in_lavorazione) ⊎ (a ≢ in_lavorazione)
in_lavorazione-cases in_lavorazione = inl refl
in_lavorazione-cases _ = inr (λ e. cc)

module _ (e : Env) (id actor documento note : String) (s : MemoryStore) where
  not-IsIn :
      (p : Pratica)
      → lookup id s.pratiche ≡ some p
      → p.stato ≢ in_lavorazione
      → ¬ IsIn in_lavorazione id s
  not-IsIn p found n h =
      let same : h.pratica ≡ p = ground (arith, h.found) in n (rw same at h.state)

  refused_absent :
      lookup id s.pratiche ≡ none
      → request_documento e id actor documento note s ≡ (s, err not_found)
  unfolding request_documento
  refused_absent absent = rw absent refl

  refused_elsewhere :
      (p : Pratica)
      → lookup id s.pratiche ≡ some p
      → p.stato ≢ in_lavorazione
      → request_documento e id actor documento note s ≡ (s, err invalid_state)
  unfolding request_documento change_pratica_state allowed_transition
  refused_elsewhere p found n = ground arith

  -- What a granted request writes: the change of state, and then the note.
  abbrev changed : Pratica → Pratica
  changed p =
      moved (e.uuid 0) id actor integrazione_richiesta "richiesta integrazione documentale"
        (e.now 0) p

  abbrev asked : Pratica → Pratica
  asked p =
      noted (e.uuid 1) actor (trim_space (request_text documento note)) false (e.now 1) (changed p)

  granted :
      (p : Pratica)
      → lookup id s.pratiche ≡ some p
      → p.stato ≡ in_lavorazione
      → request_documento e id actor documento note s
        ≡ (put_pratica id (asked p) (put_pratica id (changed p) s), ok (asked p))
  unfolding request_documento allowed_transition
  granted p found at =
      let guard : (not (is_in_lavorazione p.stato) && not (is_sospesa p.stato)) ≡ false =
        ground arith in
      let edge : allowed_transition p.stato integrazione_richiesta ≡ true = ground arith in
      rw found (
        rw guard (
          rw
            (change_along_edge e id actor "richiesta integrazione documentale"
              integrazione_richiesta s p found edge)
            (add_nota_succeeds (skip 1 e) id actor (request_text documento note) false
              (put_pratica id (changed p) s) (changed p)
              (lookup-insert_self id (changed p) s.pratiche)
              (trim_space-request_text-ne-empty documento note))))

  -- RequestDocumento succeeds exactly in IN_LAVORAZIONE: if the pratica under the identifier is
  -- there in that state, it returns the pratica as it then stands in the store, in
  -- INTEGRAZIONE_RICHIESTA; otherwise, in SOSPESA too, it fails and leaves the store as it is.
  pub request_documento_lem :
      let o = request_documento e id actor documento note s in
      (IsIn in_lavorazione id s
        × ((q : Pratica) × (o.1 ≡ ok q)
            × (lookup id o.0.pratiche ≡ some q)
            × (q.stato ≡ integrazione_richiesta)))
      ⊎ ((¬ IsIn in_lavorazione id s) × (o.0 ≡ s) × (is_ok o.1 ≡ false))
  request_documento_lem = elim (Option-cases (lookup id s.pratiche)) [
    | inl absent ↦
        let eq = refused_absent absent in
        inr (
          λ h. ground (arith, h.found),
          ap (λ (o : Outcome Pratica). o.0) eq,
          ap (λ (o : Outcome Pratica). is_ok o.1) eq,
        )
    | inr (p, found) ↦ elim (in_lavorazione-cases p.stato) [
      | inl at ↦
          let eq = granted p found at in
          inl (
            record { pratica = p; found = found; state = at },
            (
              asked p,
              ap (λ (o : Outcome Pratica). o.1) eq,
              ap (λ (o : Outcome Pratica). lookup id o.0.pratiche) eq
                  ∙ lookup-insert_self id (asked p) (put_pratica id (changed p) s).pratiche,
              refl,
            ),
          )
      | inr n ↦
          let eq = refused_elsewhere p found n in
          inr (
            not-IsIn p found n,
            ap (λ (o : Outcome Pratica). o.0) eq,
            ap (λ (o : Outcome Pratica). is_ok o.1) eq,
          )
    ]
  ]
