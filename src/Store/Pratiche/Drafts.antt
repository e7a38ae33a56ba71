-- ===== src/Store/Pratiche/Drafts.antt =====
-- What the applicant may do to a draft: SubmitPratica, UpdatePraticaAsDraft and
-- DeletePraticaAsDraft of internal/store/memory.go.
use visto_easy.Prelude.{
  ◌≡◌, refl, ◌⊎◌, inl, inr, Bool, true, false, not, ◌||◌, String, none, some, arith, Bool-cases,
  Option-cases, ◌==◌,
}
use visto_easy.Prelude.Clock.{Env}
use visto_easy.Prelude.Dict.{lookup, lookup-insert_self, lookup-erase}
use visto_easy.Model.{Fields, bozza, inviata, is_bozza, Pratica}
use visto_easy.Store.State.{MemoryStore, Result, ok, err}
use visto_easy.Store.Pratiche.{
  allowed_transition, moved, patch, update_pratica_as_draft, delete_pratica_as_draft,
  change_pratica_state, submit_pratica,
}

-- The pratica under the key is a draft of the user.
pub record IsDraftOf (user id : String) (s : MemoryStore) : Type 0 where
  pub pratica : Pratica
  pub found : lookup id s.pratiche ≡ some pratica
  pub own : pratica.utente_id ≡ user
  pub draft : pratica.stato ≡ bozza

-- A call has succeeded.
abbrev pub is_ok {ℓ} : {A : Type ℓ} → Result A → Bool
is_ok (ok a) = true
is_ok (err x) = false

module _ (e : Env) (id user : String) (s : MemoryStore) where
  not-IsDraftOf_absent : lookup id s.pratiche ≡ none → ¬ IsDraftOf user id s
  not-IsDraftOf_absent absent d = ground (arith, d.found)

  not-IsDraftOf_guarded :
      (p : Pratica)
      → lookup id s.pratiche ≡ some p
      → (not (p.utente_id == user) || not (is_bozza p.stato)) ≡ true
      → ¬ IsDraftOf user id s
  not-IsDraftOf_guarded p found h d =
      let same : d.pratica ≡ p = ground (arith, d.found) in
      let own : p.utente_id ≡ user = rw (← same) d.own in
      let draft : p.stato ≡ bozza = rw (← same) d.draft in ground arith

  IsDraftOf-unguarded :
      (p : Pratica)
      → lookup id s.pratiche ≡ some p
      → (not (p.utente_id == user) || not (is_bozza p.stato)) ≡ false
      → IsDraftOf user id s
  IsDraftOf-unguarded p found h = record {
    pratica = p;
    found = found;
    own = ground arith;
    draft = ground arith;
  }

  -- SubmitPratica goes through exactly for an own draft: if the pratica under the identifier is
  -- there, belongs to the user and is in BOZZA, it returns the pratica as it then stands in the
  -- store, in INVIATA and submitted at the time of the call; otherwise it fails and leaves the
  -- store as it is.
  pub submit_pratica_lem :
      let o = submit_pratica e id user s in
      (IsDraftOf user id s
        × ((q : Pratica) × (o.1 ≡ ok q)
            × (lookup id o.0.pratiche ≡ some q)
            × (q.stato ≡ inviata)
            × (q.inviato_il ≡ some (e.now 0))))
      ⊎ ((¬ IsDraftOf user id s) × (o.0 ≡ s) × (is_ok o.1 ≡ false))
  unfolding submit_pratica change_pratica_state allowed_transition
  submit_pratica_lem = elim (Option-cases (lookup id s.pratiche)) [
    | inl absent ↦ inr (not-IsDraftOf_absent absent, ground arith, ground arith)
    | inr (p, found) ↦ elim (Bool-cases (not (p.utente_id == user) || not (is_bozza p.stato))) [
      | inl refused ↦ inr (not-IsDraftOf_guarded p found refused, ground arith, ground arith)
      | inr own ↦ inl (
        IsDraftOf-unguarded p found own,
        (
          moved (e.uuid 0) id user inviata "pratica inviata dal richiedente" (e.now 0) p,
          ground arith,
          ground (
            arith,
            lookup-insert_self id
                (moved (e.uuid 0) id user inviata "pratica inviata dal richiedente" (e.now 0) p)
                s.pratiche,
          ),
          refl,
          refl,
        ),
      )
    ]
  ]

  -- The same for UpdatePraticaAsDraft, which leaves the draft a draft of its owner's.
  pub update_pratica_as_draft_lem :
      (d : Fields)
      → let o = update_pratica_as_draft e id user d s in
        (IsDraftOf user id s
          × ((q : Pratica) × (o.1 ≡ ok q)
              × (lookup id o.0.pratiche ≡ some q)
              × (q.stato ≡ bozza)
              × (q.utente_id ≡ user)))
        ⊎ ((¬ IsDraftOf user id s) × (o.0 ≡ s) × (is_ok o.1 ≡ false))
  unfolding update_pratica_as_draft
  update_pratica_as_draft_lem d = elim (Option-cases (lookup id s.pratiche)) [
    | inl absent ↦ inr (not-IsDraftOf_absent absent, ground arith, ground arith)
    | inr (p, found) ↦ elim (Bool-cases (not (p.utente_id == user) || not (is_bozza p.stato))) [
      | inl refused ↦ inr (not-IsDraftOf_guarded p found refused, ground arith, ground arith)
      | inr own ↦ inl (
        IsDraftOf-unguarded p found own,
        (
          patch d (e.now 0) p,
          ground arith,
          ground (arith, lookup-insert_self id (patch d (e.now 0) p) s.pratiche),
          ground arith,
          ground arith,
        ),
      )
    ]
  ]

  -- The same for DeletePraticaAsDraft, after which there is no pratica under the identifier.
  pub delete_pratica_as_draft_lem :
      let o = delete_pratica_as_draft id user s in
      (IsDraftOf user id s × (o.1 ≡ ok tt) × (lookup id o.0.pratiche ≡ none))
      ⊎ ((¬ IsDraftOf user id s) × (o.0 ≡ s) × (is_ok o.1 ≡ false))
  unfolding delete_pratica_as_draft
  delete_pratica_as_draft_lem = elim (Option-cases (lookup id s.pratiche)) [
    | inl absent ↦ inr (not-IsDraftOf_absent absent, ground arith, ground arith)
    | inr (p, found) ↦ elim (Bool-cases (not (p.utente_id == user) || not (is_bozza p.stato))) [
      | inl refused ↦ inr (not-IsDraftOf_guarded p found refused, ground arith, ground arith)
      | inr own ↦ inl (
        IsDraftOf-unguarded p found own,
        ground arith,
        ground (arith, lookup-erase id id s.pratiche),
      )
    ]
  ]
