-- ===== src/Http/Pratiche/Ownership.antt =====
-- Which pratica the handlers of internal/httpapi/server.go show to whom, and which they change.
use visto_easy.Prelude.{
  sym, ap, ◌∙◌, on_some, ◌≡◌, ◌≢◌, refl, ◌⊎◌, inl, inr, true, false, not, ◌&&◌, String, Option,
  none, some, arith, Bool-cases, Option-cases, ◌==◌,
}
use visto_easy.Prelude.Clock.{Env}
use visto_easy.Prelude.Dict.{lookup}
use visto_easy.Model.{Fields, Pratica}
use visto_easy.Store.State.{MemoryStore, Result, ok, err, StoreError}
use visto_easy.Store.Pratiche.{get_pratica}
use visto_easy.Store.Pratiche.Drafts.{
  IsDraftOf, is_ok, submit_pratica_lem, update_pratica_as_draft_lem, delete_pratica_as_draft_lem,
}
use visto_easy.Http.Reply.{Claims, pratica_body, eventi_body, write_err}
use visto_easy.Http.Access.{is_richiedente}
use visto_easy.Http.Pratiche.{
  handle_get_pratica, handle_list_eventi_pratica, handle_patch_pratica, handle_delete_pratica,
  handle_submit_pratica, not_found_or,
}

-- The caller may see the pratica: it is the caller's own, or the caller is no applicant.
abbrev pub MaySee : Claims → Pratica → Type 0
MaySee c p = (p.utente_id ≡ c.user_id) ⊎ (is_richiedente c ≡ false)

may_see :
    (c : Claims) (p : Pratica)
    → (is_richiedente c && not (p.utente_id == c.user_id)) ≡ false
    → MaySee c p
may_see c p seen = elim (Bool-cases (is_richiedente c)) [
  | inl applicant ↦ inl (ground arith)
  | inr other ↦ inr other
]

-- There is a pratica under the identifier, and a caller with claims who may see it.
abbrev pub Sees : Option Claims → String → MemoryStore → Type 0
Sees claims id s =
    (c : Claims) × (p : Pratica) × (claims ≡ some c) × (lookup id s.pratiche ≡ some p) × MaySee c p

unseen_absent :
    (c : Claims) (id : String) (s : MemoryStore)
    → lookup id s.pratiche ≡ none
    → ¬ Sees (some c) id s
unseen_absent c id s absent (d, q, known, found, may) = cc

unseen :
    (c : Claims) (id : String) (s : MemoryStore) (p : Pratica)
    → lookup id s.pratiche ≡ some p
    → (is_richiedente c && not (p.utente_id == c.user_id)) ≡ true
    → ¬ Sees (some c) id s
unseen c id s p found refused (d, q, known, at, may) =
    let same : p.utente_id ≡ q.utente_id =
      ap (λ (o : Option Pratica). on_some o "" λ x. x.utente_id) (sym found ∙ at) in
    let user : c.user_id ≡ d.user_id =
      ap (λ (o : Option Claims). on_some o "" λ x. x.user_id) known in
    let role : is_richiedente c ≡ is_richiedente d =
      ap (λ (o : Option Claims). on_some o true λ x. is_richiedente x) known in
    elim may [
      | inl own ↦ absurd (ground (arith, same ∙ (own ∙ sym user)))
      | inr other ↦ absurd (ground (arith, role ∙ other))
    ]

-- Both handlers leave the store as it is, and neither replies 200.
abbrev Hidden : Option Claims → String → MemoryStore → Type 0
Hidden claims id s =
    let (s1, reply) = handle_get_pratica claims id s in
    let (s2, eventi) = handle_list_eventi_pratica claims id s in
    ((s1 ≡ s) × (s2 ≡ s)) × ((reply.status ≢ 200) × (eventi.status ≢ 200))

-- handleGetPratica and handleListEventiPratica reply 200 exactly to a caller with claims who may
-- see the pratica under the identifier, an applicant only the own and anyone else every one, and
-- then they send that pratica and its events; to a caller without claims, for an identifier that
-- is not in the store or to an applicant who is not its owner, neither replies 200. Neither
-- changes the store.
pub get_pratica-MaySee :
    (claims : Option Claims) (id : String) (s : MemoryStore)
    → let (s1, reply) = handle_get_pratica claims id s in
      let (s2, eventi) = handle_list_eventi_pratica claims id s in
      ((s1 ≡ s) × (s2 ≡ s))
      × ((((c : Claims) × (p : Pratica) × (claims ≡ some c)
            × (lookup id s.pratiche ≡ some p)
            × MaySee c p
            × (reply.status ≡ 200)
            × (reply.body ≡ pratica_body p)
            × (eventi.status ≡ 200)
            × (eventi.body ≡ eventi_body p.eventi)))
          ⊎ ((¬ Sees claims id s) × (reply.status ≢ 200) × (eventi.status ≢ 200)))
unfolding handle_get_pratica handle_list_eventi_pratica get_pratica
get_pratica-MaySee none id s =
    let nobody : ¬ Sees none id s = λ x. let (c, p, known, _, _) = x in cc in
    let o : Hidden none id s = elim (Option-cases (lookup id s.pratiche)) [
      | inl absent ↦ rw absent ((refl, refl), (ground arith, ground arith))
      | inr (p, found) ↦ rw found ((refl, refl), (ground arith, ground arith))
    ] in
    (o.0, inr (nobody, o.1.0, o.1.1))
get_pratica-MaySee (some c) id s = elim (Option-cases (lookup id s.pratiche)) [
  | inl absent ↦
      let o : Hidden (some c) id s = rw absent ((refl, refl), (ground arith, ground arith)) in
      (o.0, inr (unseen_absent c id s absent, o.1.0, o.1.1))
  | inr (p, found) ↦ elim (Bool-cases (is_richiedente c && not (p.utente_id == c.user_id))) [
    | inl refused ↦
        let o : Hidden (some c) id s =
          rw (found, refused) ((refl, refl), (ground arith, ground arith)) in
        (o.0, inr (unseen c id s p found refused, o.1.0, o.1.1))
    | inr seen ↦
        rw found
          (rw seen ((refl, refl), inl (c, p, refl, refl, may_see c p seen, refl, refl, refl, refl)))
  ]
]

-- A result that is no success is an error.
error_of : {A : Type 0} (r : Result A) → is_ok r ≡ false → (x : StoreError) × (r ≡ err x)
error_of (ok a) h = absurd (ground arith)
error_of (err x) h = (x, refl)

module _ (msg : String) where
  not_found_or-status :
      (x : StoreError)
      → let status = (not_found_or (write_err 403 msg) x).status in (status ≢ 200) × (status ≢ 204)
  not_found_or-status StoreError.not_found = (ground arith, ground arith)
  not_found_or-status StoreError.already_exists = (ground arith, ground arith)
  not_found_or-status StoreError.invalid_state = (ground arith, ground arith)
  not_found_or-status StoreError.forbidden_state = (ground arith, ground arith)

module _ (e : Env) (c : Claims) (id : String) (s : MemoryStore)
    (applicant : is_richiedente c ≡ true) where
  submit-draft :
      let o = handle_submit_pratica e (some c) id s in
      (IsDraftOf c.user_id id s × (o.1.status ≡ 200))
      ⊎ ((¬ IsDraftOf c.user_id id s) × (o.1.status ≢ 200) × (o.0 ≡ s))
  unfolding handle_submit_pratica
  submit-draft = elim (submit_pratica_lem e id c.user_id s) [
    | inl (draft, done) ↦ inl (draft, rw applicant (rw (done.1) refl))
    | inr (n, same, failed) ↦
        let (x, eq) = error_of _ failed in
        inr (
          n,
          rw applicant (rw eq ((not_found_or-status "submit non consentito" x).0)),
          rw applicant (rw eq same),
        )
  ]

  patch-draft :
      (changes : Fields)
      → let o = handle_patch_pratica e (some c) id (some changes) s in
        (IsDraftOf c.user_id id s × (o.1.status ≡ 200))
        ⊎ ((¬ IsDraftOf c.user_id id s) × (o.1.status ≢ 200) × (o.0 ≡ s))
  unfolding handle_patch_pratica
  patch-draft changes = elim (update_pratica_as_draft_lem e id c.user_id s changes) [
    | inl (draft, done) ↦ inl (draft, rw applicant (rw (done.1) refl))
    | inr (n, same, failed) ↦
        let (x, eq) = error_of _ failed in
        inr (
          n,
          rw applicant (rw eq ((not_found_or-status "modifica non consentita" x).0)),
          rw applicant (rw eq same),
        )
  ]

  delete-draft :
      let o = handle_delete_pratica (some c) id s in
      (IsDraftOf c.user_id id s × (o.1.status ≡ 204))
      ⊎ ((¬ IsDraftOf c.user_id id s) × (o.1.status ≢ 204) × (o.0 ≡ s))
  unfolding handle_delete_pratica
  delete-draft = elim (delete_pratica_as_draft_lem e id c.user_id s) [
    | inl (draft, done, _) ↦ inl (draft, rw applicant (rw done refl))
    | inr (n, same, failed) ↦
        let (x, eq) = error_of _ failed in
        inr (
          n,
          rw applicant (rw eq ((not_found_or-status "eliminazione non consentita" x).1)),
          rw applicant (rw eq same),
        )
  ]

-- What an applicant does to a pratica by its identifier goes through exactly for an own draft:
-- handleSubmitPratica replies 200, handlePatchPratica 200 and handleDeletePratica 204 if the
-- pratica under the identifier is a draft of the caller's, and otherwise each replies with another
-- status and leaves the store as it is.
pub own_draft_only :
    (e : Env) (c : Claims) (id : String) (changes : Fields) (s : MemoryStore)
    → is_richiedente c ≡ true
    → let submit = handle_submit_pratica e (some c) id s in
      let patch = handle_patch_pratica e (some c) id (some changes) s in
      let delete = handle_delete_pratica (some c) id s in
      (IsDraftOf c.user_id id s
        × (submit.1.status ≡ 200)
        × (patch.1.status ≡ 200)
        × (delete.1.status ≡ 204))
      ⊎ ((¬ IsDraftOf c.user_id id s)
          × ((submit.1.status ≢ 200) × (submit.0 ≡ s))
          × ((patch.1.status ≢ 200) × (patch.0 ≡ s))
          × (delete.1.status ≢ 204)
          × (delete.0 ≡ s))
unfolding handle_submit_pratica handle_patch_pratica handle_delete_pratica
own_draft_only e c id changes s applicant =
    let patch = patch-draft e c id s applicant changes in
    let delete = delete-draft e c id s applicant in
    elim (submit-draft e c id s applicant) [
      | inl (draft, a) ↦ inl (
        draft,
        a,
        elim patch [ inl b ↦ b.1 | inr b ↦ absurd (b.0 draft) ],
        elim delete [ inl b ↦ b.1 | inr b ↦ absurd (b.0 draft) ],
      )
      | inr a ↦
          let o = handle_delete_pratica (some c) id s in
          let d : (o.1.status ≢ 204) × (o.0 ≡ s) = elim delete [
            | inl b ↦ absurd (a.0 b.0)
            | inr b ↦ (b.1, b.2)
          ] in
          inr (
            a.0,
            (a.1, a.2),
            elim patch [ inl b ↦ absurd (a.0 b.0) | inr b ↦ (b.1, b.2) ],
            d.0,
            d.1,
          )
    ]
