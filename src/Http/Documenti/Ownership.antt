-- ===== src/Http/Documenti/Ownership.antt =====
-- The handlers of documents of internal/httpapi/server.go towards callers without access.
use visto_easy.Prelude.{
  ◌≡◌, refl, ◌⊎◌, inl, inr, true, false, String, Option, none, some, Option-cases, ◌==◌,
}
use visto_easy.Prelude.Clock.{Env}
use visto_easy.Prelude.Dict.{lookup}
use visto_easy.Model.{Pratica}
use visto_easy.Store.State.{MemoryStore}
use visto_easy.Store.Pratiche.{get_pratica}
use visto_easy.Http.Reply.{Claims, Served}
use visto_easy.Http.Access.{is_richiedente}
use visto_easy.Http.Documenti.{
  PresignService, DocumentoRequest, with_access, handle_add_documento, handle_presign_documento,
  handle_list_documenti, handle_get_documento, handle_download_documento, handle_preview_documento,
  handle_delete_documento,
}

-- The caller has no access to the pratica under the identifier: there is none, or the caller has no
-- claims, or the caller is an applicant and another user owns it.
pub data IsOutsider (id : String) (s : MemoryStore) : Option Claims → Type 0 where
  absent : {claims : Option Claims} → lookup id s.pratiche ≡ none → IsOutsider id s claims
  anonymous : IsOutsider id s none
  stranger :
      {c : Claims} {p : Pratica}
      → lookup id s.pratiche ≡ some p
      → is_richiedente c ≡ true
      → (p.utente_id == c.user_id) ≡ false
      → IsOutsider id s (some c)

-- The handler has replied 404, 403 or 401, and the store is as it was.
abbrev pub IsRefused : MemoryStore → Served → Type 0
IsRefused s o = (o.0 ≡ s) × ((o.1.status ≡ 404) ⊎ ((o.1.status ≡ 403) ⊎ (o.1.status ≡ 401)))

module _ (id : String) (s : MemoryStore) where
  with_access-IsRefused :
      (claims : Option Claims)
      → IsOutsider id s claims
      → (k : Claims → Pratica → Served) → IsRefused s (with_access claims id s k)
  unfolding get_pratica
  with_access-IsRefused claims (IsOutsider.absent e) k = rw e (refl, inl refl)
  with_access-IsRefused none IsOutsider.anonymous k = elim (Option-cases (lookup id s.pratiche)) [
    | inl e ↦ rw e (refl, inl refl)
    | inr (p, e) ↦ rw e (refl, inr (inl refl))
  ]
  with_access-IsRefused (some c) (IsOutsider.stranger e applicant other) k =
      rw e (rw applicant (rw other (refl, inr (inl refl))))

  delete-IsRefused :
      (e : Env) (claims : Option Claims) (doc : String)
      → IsOutsider id s claims
      → IsRefused s (handle_delete_documento e claims id doc s)
  unfolding handle_delete_documento get_pratica
  delete-IsRefused e claims doc (IsOutsider.absent a) = rw a (refl, inl refl)
  delete-IsRefused e none doc IsOutsider.anonymous = elim (Option-cases (lookup id s.pratiche)) [
    | inl a ↦ rw a (refl, inl refl)
    | inr (p, a) ↦ rw a (refl, inr (inr refl))
  ]
  delete-IsRefused e (some c) doc (IsOutsider.stranger a applicant other) =
      rw a (rw applicant (rw other (refl, inr (inl refl))))

-- Every handler of documents refuses a caller without access to the pratica, be it that there is
-- none, that the caller has no claims, or that the caller is an applicant and not the owner: it
-- replies 404, 403 or 401 and leaves the store as it is, whatever the rest of the request is.
pub documenti-IsRefused :
    (e : Env) (presign : PresignService) (service : Option PresignService) (claims : Option Claims)
    (id doc : String) (body : Option DocumentoRequest) (s : MemoryStore)
    → IsOutsider id s claims
    → IsRefused s (handle_add_documento e claims id body s)
      × IsRefused s (handle_presign_documento presign claims id body s)
      × IsRefused s (handle_list_documenti claims id s)
      × IsRefused s (handle_get_documento claims id doc s)
      × IsRefused s (handle_download_documento service claims id doc s)
      × IsRefused s (handle_preview_documento service claims id doc s)
      × IsRefused s (handle_delete_documento e claims id doc s)
unfolding handle_add_documento handle_presign_documento handle_list_documenti handle_get_documento
    handle_download_documento handle_preview_documento
documenti-IsRefused e presign service claims id doc body s out =
    let refuse = with_access-IsRefused id s claims out in
    (
      refuse _,
      refuse _,
      refuse _,
      refuse _,
      refuse _,
      refuse _,
      delete-IsRefused id s e claims doc out,
    )
