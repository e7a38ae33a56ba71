-- ===== src/Mongo/Refinement/Sequences.antt =====
-- Sequences of calls of the interface of internal/store/interface.go on the two stores, and the
-- calls for which the two are known to agree.
use visto_easy.Prelude.{◌≡◌, ◌≢◌, List, [], ◌∷◌, none, some, trim_space, All}
use visto_easy.Prelude.Clock.{Env}
use visto_easy.Prelude.Dict.{lookup, values}
use visto_easy.Model.{RefreshSession, PasswordResetToken, BlockedIp, AllowedIp}
use visto_easy.Store.State.{MemoryStore}
use visto_easy.Store.Payments.{new_payment}
use visto_easy.Store.Sessions
use visto_easy.Store.Ips
use visto_easy.Mongo.Driver.{MongoStore}
use visto_easy.Mongo.Tables.{Tables, first}
use visto_easy.Mongo.Refinement.Documenti.{HasDistinct}
use visto_easy.Mongo.Refinement.Creation.{IsFresh}
use visto_easy.Mongo.Refinement.Revocation.{IsLive}
use visto_easy.Mongo.Refinement.Listings.{Apart}
use visto_easy.Store.Order.Strict.{IsStrict}
use visto_easy.Mongo.Refinement.Tokens.{has_token}
use visto_easy.Mongo.Refinement.Requests.{
  Request, Response, serve_memory, serve_mongo, creates_pratica, deletes_draft, deletes_documento,
  creates_payment, updates_checkout, refunds, opens_session, revokes_sessions, lists_sessions,
  consumes_token, reads_blocked, reads_allowed, lists_blocked, lists_allowed,
}

-- Where the two are known to agree: the cases that are left out are those in which they differ.
abbrev pub Agrees : Env → Request → Tables → MemoryStore → Type 0
Agrees e (creates_pratica p actor) t m = IsFresh e t m
Agrees e (deletes_draft id user) t m = lookup id m.pratiche ≢ none
Agrees e (deletes_documento id doc) t m = HasDistinct id m
Agrees e (creates_payment id provider amount) t m =
    let pay = new_payment e id provider amount in
    (lookup pay.id m.payments ≡ none) × (first (has_token pay.token) t.pagamenti ≡ none)
Agrees e (updates_checkout id session link) t m = trim_space id ≢ ""
Agrees e (refunds token) t m = trim_space token ≡ token
Agrees e (opens_session q) t m = trim_space q.id ≡ q.id
Agrees e (revokes_sessions user) t m =
    All (IsLive (e.now 0) (trim_space user)) (values m.refresh_sessions)
Agrees e (lists_sessions user) t m =
    Apart (λ (q : RefreshSession). some q.expires_at) (e.now 0) m.refresh_sessions
    × IsStrict (λ (q : RefreshSession). q.creato_il)
        (Sessions.list_refresh_sessions_by_user e user m).1
Agrees e lists_blocked t m =
    Apart (λ (b : BlockedIp). b.expires_at) (e.now 0) m.blocked_ips
    × IsStrict (λ (b : BlockedIp). b.blocked_at) (Ips.list_blocked_ips e m).1
Agrees e lists_allowed t m =
    Apart (λ (a : AllowedIp). a.expires_at) (e.now 0) m.allowed_ips
    × IsStrict (λ (a : AllowedIp). a.allowed_at) (Ips.list_allowed_ips e m).1
Agrees e (consumes_token token) t m =
    (t : PasswordResetToken)
    → lookup (trim_space token) m.password_reset_tokens ≡ some t
    → t.expires_at ≢ e.now 0
Agrees e (reads_blocked ip) t m = trim_space ip ≢ ""
Agrees e (reads_allowed ip) t m = trim_space ip ≢ ""
Agrees e _ t m = Unit

-- A sequence of calls, each with its own clock and identifiers.
unfoldable pub run_memory : List (Env × Request) → MemoryStore → List Response
unfolding serve_memory
run_memory [] m = []
run_memory ((e, q) ∷ qs) m = (serve_memory e q m).1 ∷ run_memory qs (serve_memory e q m).0

module _ {S : Type 0} (db : MongoStore S) where
  unfoldable pub run_mongo : List (Env × Request) → S → List Response
  unfolding serve_mongo
  run_mongo [] s = []
  run_mongo ((e, q) ∷ qs) s = (serve_mongo db e q s).1 ∷ run_mongo qs (serve_mongo db e q s).0

  abbrev pub AllAgree : (S → Tables) → List (Env × Request) → S → MemoryStore → Type 0
  AllAgree view [] s m = Unit
  AllAgree view ((e, q) ∷ qs) s m =
      Agrees e q (view s) m × AllAgree view qs (serve_mongo db e q s).0 (serve_memory e q m).0
