-- ===== src/Tests/Access.antt =====
-- Access to pratiche, documents and the back office, at concrete inputs.
use visto_easy.Prelude.{◌≡◌, ◌≢◌, refl, ◌⊎◌, ◌↔◌, true, List, none, some, String-discrete, ◌==◌}
use mathlib.Core.List.{Memᴰ}
use visto_easy.Prelude.Dict.{lookup, values}
use visto_easy.Model.{bozza, end, Pratica}
use visto_easy.Store.Order.{IsLatestFirst}
use visto_easy.Store.Pratiche.Drafts.{IsDraftOf}
use visto_easy.Http.Reply.{Claims, no_body, write_json, pratica_body, pratiche_body, eventi_body}
use visto_easy.Http.Pratiche.{
  handle_get_pratica, handle_list_eventi_pratica, handle_list_mie_pratiche, handle_submit_pratica,
  handle_patch_pratica, handle_delete_pratica,
}
use visto_easy.Http.Pratiche.Listing.{list_mie_pratiche-own}
use visto_easy.Http.Pratiche.Ownership.{MaySee, Sees, get_pratica-MaySee, own_draft_only}
use visto_easy.Http.Documenti.{
  PresignService, handle_add_documento, handle_presign_documento, handle_list_documenti,
  handle_get_documento, handle_download_documento, handle_preview_documento,
  handle_delete_documento,
}
use visto_easy.Http.Documenti.Ownership.{IsOutsider, stranger, IsRefused, documenti-IsRefused}
use visto_easy.Http.Access.{Handler, auth_middleware, require_roles, backoffice_roles}
use visto_easy.Http.Access.Chain.{IsAuthorised, auth_middleware-require_roles}
use visto_easy.Store.State.{empty_store}
use visto_easy.Tests.Data.{boss, at, anna, holding_in}

abbrev bert : Claims
bert = record anna { user_id = "bert" }

applicant : (anna.role == "RICHIEDENTE") ≡ true
unfolding String-discrete
applicant = refl

abbrev presign : PresignService
presign = record {
  presign_document_upload = λ id name mime size. some "https://files";
  presign_document_download = λ key name. some "https://files";
}

get_pratica-MaySee_example :
    let (s1, reply) = handle_get_pratica (some anna) "p" (holding_in bozza) in
    let (s2, eventi) = handle_list_eventi_pratica (some anna) "p" (holding_in bozza) in
    ((s1 ≡ holding_in bozza) × (s2 ≡ holding_in bozza))
    × ((((c : Claims) × (p : Pratica) × (some anna ≡ some c)
          × (lookup "p" (holding_in bozza).pratiche ≡ some p)
          × MaySee c p
          × (reply.status ≡ 200)
          × (reply.body ≡ pratica_body p)
          × (eventi.status ≡ 200)
          × (eventi.body ≡ eventi_body p.eventi)))
        ⊎ ((¬ Sees (some anna) "p" (holding_in bozza))
            × (reply.status ≢ 200)
            × (eventi.status ≢ 200)))
get_pratica-MaySee_example = get_pratica-MaySee (some anna) "p" (holding_in bozza)

list_mie_pratiche-own_example :
    let (s', reply) = handle_list_mie_pratiche (some anna) (holding_in bozza) in
    (ps : List Pratica) × (s' ≡ holding_in bozza)
    × (reply ≡ write_json 200 (pratiche_body ps))
    × IsLatestFirst (λ (p : Pratica). p.creato_il) ps
    × ((p : Pratica)
        → Memᴰ p ps ↔ (Memᴰ p (values (holding_in bozza).pratiche) × (p.utente_id ≡ "anna")))
list_mie_pratiche-own_example = list_mie_pratiche-own anna (holding_in bozza) applicant

own_draft_only_example :
    let submit = handle_submit_pratica (at 9 "x") (some anna) "p" (holding_in bozza) in
    let patch = handle_patch_pratica (at 9 "x") (some anna) "p" (some end) (holding_in bozza) in
    let delete = handle_delete_pratica (some anna) "p" (holding_in bozza) in
    (IsDraftOf "anna" "p" (holding_in bozza)
      × (submit.1.status ≡ 200)
      × (patch.1.status ≡ 200)
      × (delete.1.status ≡ 204))
    ⊎ ((¬ IsDraftOf "anna" "p" (holding_in bozza))
        × ((submit.1.status ≢ 200) × (submit.0 ≡ holding_in bozza))
        × ((patch.1.status ≢ 200) × (patch.0 ≡ holding_in bozza))
        × (delete.1.status ≢ 204)
        × (delete.0 ≡ holding_in bozza))
own_draft_only_example = own_draft_only (at 9 "x") anna "p" end (holding_in bozza) applicant

bert-IsOutsider : IsOutsider "p" (holding_in bozza) (some bert)
unfolding lookup String-discrete
bert-IsOutsider = stranger refl refl refl

documenti-IsRefused_example :
    let e = at 9 "x" in
    let s = holding_in bozza in
    IsRefused s (handle_add_documento e (some bert) "p" none s)
    × IsRefused s (handle_presign_documento presign (some bert) "p" none s)
    × IsRefused s (handle_list_documenti (some bert) "p" s)
    × IsRefused s (handle_get_documento (some bert) "p" "d" s)
    × IsRefused s (handle_download_documento (some presign) (some bert) "p" "d" s)
    × IsRefused s (handle_preview_documento (some presign) (some bert) "p" "d" s)
    × IsRefused s (handle_delete_documento e (some bert) "p" "d" s)
documenti-IsRefused_example =
    documenti-IsRefused (at 9 "x") presign (some presign) (some bert) "p" "d" none
      (holding_in bozza) bert-IsOutsider

-- A server that reads every token as the administrator's, and a handler that deletes everything.
abbrev wipe : Handler
wipe claims s = (empty_store, write_json 200 no_body)

auth_middleware-require_roles_example :
    let o =
      auth_middleware
        (λ token. some boss)
        "Bearer t"
        (require_roles backoffice_roles wipe)
        (holding_in bozza) in
    ((c : Claims) × IsAuthorised (λ token. some boss) backoffice_roles "Bearer t" c
      × (o ≡ wipe (some c) (holding_in bozza)))
    ⊎ ((o.0 ≡ holding_in bozza) × ((o.1.status ≡ 401) ⊎ (o.1.status ≡ 403)))
auth_middleware-require_roles_example =
    auth_middleware-require_roles (λ token. some boss) backoffice_roles "Bearer t" wipe
      (holding_in bozza)
