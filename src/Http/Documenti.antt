-- ===== src/Http/Documenti.antt =====
-- internal/httpapi/server.go: the handlers under /api/pratiche/{id}/documenti. The storage service
-- that signs the links to the files is a parameter.
pub mod Ownership
use Prim.Native.String.{◌++◌}
use visto_easy.Prelude.{
  ◌*◌, Bool, true, false, not, ◌&&◌, ◌||◌, String, List, [], ◌∷◌, Option, none, some, ◌==◌,
  if◌then◌else◌, on_some, trim_space, to_lower,
}
use visto_easy.Prelude.Int.{ℤ, pos, ltb_ℤ}
use visto_easy.Prelude.Clock.{Env}
use visto_easy.Model.{Documento, Pratica, is_bozza}
use visto_easy.Store.State.{MemoryStore, Outcome, Result, ok, err, on_result}
use visto_easy.Store.Pratiche.{get_pratica}
use visto_easy.Store.Documenti.{add_documento, list_documenti, get_documento, delete_documento}
use visto_easy.Http.Reply.{
  Claims, Served, write_json, write_err, undecoded, no_body, documento_body, created_documento_body,
  documenti_body, upload_body, redirect_body,
}
use visto_easy.Http.Access.{is_richiedente}

-- `storagepkg.PresignService`: the link for an upload of a file to a pratica, and the one for the
-- download of a key under a name; none for an error.
pub record PresignService : Type 0 where
  pub presign_document_upload : String → String → String → ℤ → Option String
  pub presign_document_download : String → String → Option String

-- The body of a request for a document. The handler for uploads reads no `tipo`.
pub record DocumentoRequest : Type 0 where
  pub tipo : String
  pub nome_file : String
  pub mime_type : String
  pub dimensione : ℤ

-- `10*1024*1024`
abbrev max_size : ℤ
max_size = pos (10 * 1024 * 1024)

-- What the handlers of documents begin with: the pratica, and the caller's right to it.
abbrev pub with_access : Option Claims → String → MemoryStore → (Claims → Pratica → Served) → Served
with_access claims id s k =
    on_result (get_pratica id s) (λ _. (s, write_err 404 "pratica non trovata"))
      λ p.
        on_some claims (s, write_err 403 "accesso negato")
          λ c.
            if is_richiedente c && not (p.utente_id == c.user_id)
            then (s, write_err 403 "accesso negato")
            else k c p

-- The document that handleAddDocumento hands to the store; the other fields are zero.
abbrev uploaded : DocumentoRequest → Documento
uploaded req = record {
  id = "";
  pratica_id = "";
  tipo = req.tipo;
  nome_file = req.nome_file;
  mime_type = to_lower req.mime_type;
  dimensione = req.dimensione;
  stato_validazione = "";
  note_validazione = "";
  s3_key = "";
  caricato_il = 0;
}

unfoldable pub handle_add_documento :
    Env → Option Claims → String → Option DocumentoRequest → MemoryStore → Served
handle_add_documento e claims id body s = with_access claims id s λ c p.
    on_some body (s, undecoded)
      λ req.
        if ltb_ℤ max_size req.dimensione
        then (s, write_err 400 "file troppo grande")
        else let (s', r) = add_documento e id (uploaded req) s in
          on_result r (λ _. (s', write_err 500 "errore upload"))
            λ d. (
              s',
              write_json 201 (created_documento_body d ("https://storage.example/upload/" ++ d.id)),
            )

unfoldable pub is_allowed_mime : String → Bool
is_allowed_mime v =
    let m = to_lower (trim_space v) in
    m == "application/pdf"
    || m == "image/jpeg"
    || m == "image/jpg"
    || m == "image/png"
    || m == "image/heic"

unfoldable pub handle_presign_documento :
    PresignService → Option Claims → String → Option DocumentoRequest → MemoryStore → Served
unfolding is_allowed_mime
handle_presign_documento presign claims id body s = with_access claims id s λ c p.
    on_some body (s, undecoded)
      λ req.
        if req.nome_file == "" || not (is_allowed_mime req.mime_type)
        then (s, write_err 400 "file non valido")
        else if ltb_ℤ req.dimensione (pos 1) || ltb_ℤ max_size req.dimensione
        then (s, write_err 400 "dimensione file non valida")
        else on_some (presign.presign_document_upload id req.nome_file req.mime_type req.dimensione)
            (s, write_err 503 "storage non configurato")
            λ url. (s, write_json 200 (upload_body url))

unfoldable pub handle_list_documenti : Option Claims → String → MemoryStore → Served
handle_list_documenti claims id s = with_access claims id s λ c p.
    on_result (list_documenti id s) (λ _. (s, write_err 404 "pratica non trovata"))
      λ docs. (s, write_json 200 (documenti_body docs))

unfoldable pub handle_get_documento : Option Claims → String → String → MemoryStore → Served
handle_get_documento claims id doc s = with_access claims id s λ c p.
    on_result (get_documento id doc s) (λ _. (s, write_err 404 "documento non trovato"))
      λ d. (s, write_json 200 (documento_body d))

-- What handleDownloadDocumento and handlePreviewDocumento share: a redirection to the link that
-- the service signs, if there is a service and the document has a key.
abbrev redirect_to : Option PresignService → Documento → String → String → MemoryStore → Served
redirect_to presign d name msg s =
    let failed : Served = (s, write_err 503 msg) in
    on_some presign failed λ service.
      if trim_space d.s3_key == ""
      then failed
      else on_some (service.presign_document_download d.s3_key name) failed
          λ url. if trim_space url == "" then failed else (s, write_json 302 (redirect_body url))

unfoldable pub handle_download_documento :
    Option PresignService → Option Claims → String → String → MemoryStore → Served
handle_download_documento presign claims id doc s = with_access claims id s λ c p.
    on_result (get_documento id doc s) (λ _. (s, write_err 404 "documento non trovato"))
      λ d. redirect_to presign d d.nome_file "download non disponibile: storage non configurato" s

unfoldable pub handle_preview_documento :
    Option PresignService → Option Claims → String → String → MemoryStore → Served
handle_preview_documento presign claims id doc s = with_access claims id s λ c p.
    on_result (get_documento id doc s) (λ _. (s, write_err 404 "documento non trovato"))
      λ d. redirect_to presign d "" "anteprima non disponibile: storage non configurato" s

-- The deletion itself, once the caller may make it.
abbrev removal : Env → String → String → MemoryStore → Served
removal e id doc s =
    let (s', r) = delete_documento e id doc s in
    on_result r (λ _. (s', write_err 500 "errore eliminazione documento"))
      λ deleted.
        if not deleted
        then (s', write_err 404 "documento non trovato")
        else (s', write_json 204 no_body)

unfoldable pub handle_delete_documento :
    Env → Option Claims → String → String → MemoryStore → Served
handle_delete_documento e claims id doc s =
    on_result (get_pratica id s) (λ _. (s, write_err 404 "pratica non trovata"))
      λ p.
        on_some claims (s, write_err 401 "non autenticato")
          λ c.
            if is_richiedente c
            then (if not (p.utente_id == c.user_id)
                then (s, write_err 403 "accesso negato")
                else if not (is_bozza p.stato)
                then (s, write_err 403 "eliminazione documenti consentita solo in bozza")
                else removal e id doc s)
            else removal e id doc s
