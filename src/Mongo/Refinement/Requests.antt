-- ===== src/Mongo/Refinement/Requests.antt =====
-- Calls of the interface of internal/store/interface.go, and what each of the two stores does with
-- them. A call has one result, and a sequence of calls the list of their results.
use visto_easy.Prelude.{ℕ, Bool, String, List}
use visto_easy.Prelude.Int.{ℤ}
use visto_easy.Prelude.Clock.{Env}
use visto_easy.Model.{
  Fields, StatoPratica, Pratica, Documento, Pagamento, RefreshSession, PasswordResetToken,
  BlockedIp, AllowedIp, SecurityEvent, AuditEvent,
}
use visto_easy.Store.State.{MemoryStore, Outcome}
use visto_easy.Store.Pratiche
use visto_easy.Store.Documenti
use visto_easy.Store.Note
use visto_easy.Store.Users
use visto_easy.Store.Payments
use visto_easy.Store.Payments.{new_payment}
use visto_easy.Store.Sessions
use visto_easy.Store.Ips
use visto_easy.Store.Events
use visto_easy.Mongo.Driver.{MongoStore, Reply, done}
use visto_easy.Mongo.Pratiche as MongoPratiche
use visto_easy.Mongo.Users as MongoUsers
use visto_easy.Mongo.Payments as MongoPayments
use visto_easy.Mongo.Sessions as MongoSessions
use visto_easy.Mongo.Ips as MongoIps
use visto_easy.Mongo.Events as MongoEvents
use visto_easy.Mongo.Refinement.Simulation.{as_reply}

-- The methods that change the contents of the store, but for CreateUser and
-- MarkWebhookEventProcessed, with the arguments of a call. GetRefreshSessionByID, GetBlockedIP and
-- GetAllowedIP are among them, and the three lists, since they drop what has ended.
pub data Request : Type 0 where
  creates_pratica : Pratica → String → Request
  patches_draft : String → String → Fields → Request
  deletes_draft submits : String → String → Request
  changes_state : String → String → StatoPratica → String → Request
  assigns : String → String → String → Request
  adds_nota : String → String → String → Bool → Request
  requests_documento : String → String → String → String → Request
  adds_documento : String → Documento → Request
  deletes_documento : String → String → Request
  verifies_user : String → Bool → Bool → Request
  sets_totp_secret : String → String → Request
  enables_totp : String → Bool → Request
  sets_password : String → String → Request
  creates_payment : String → String → ℤ → Request
  updates_checkout : String → String → String → Request
  confirms refunds : String → Request
  opens_session : RefreshSession → Request
  reads_session : String → Request
  revokes_session : String → String → Request
  revokes_sessions lists_sessions : String → Request
  creates_token : PasswordResetToken → Request
  consumes_token : String → Request
  blocks : BlockedIp → Request
  unblocks reads_blocked : String → Request
  allows : AllowedIp → Request
  disallows reads_allowed : String → Request
  lists_blocked lists_allowed : Request
  logs_security : SecurityEvent → Request
  logs_audit : AuditEvent → Request

-- The result of a call.
pub data Response : Type 0 where
  gives_pratica : Reply Pratica → Response
  gives_documento : Reply Documento → Response
  gives_payment : Reply Pagamento → Response
  gives_session : Reply RefreshSession → Response
  gives_token : Reply PasswordResetToken → Response
  gives_blocked : Reply BlockedIp → Response
  gives_allowed : Reply AllowedIp → Response
  gives_security : Reply SecurityEvent → Response
  gives_audit : Reply AuditEvent → Response
  gives_bool : Reply Bool → Response
  gives_count : Reply ℕ → Response
  gives_sessions : List RefreshSession → Response
  gives_blocked_ips : List BlockedIp → Response
  gives_allowed_ips : List AllowedIp → Response
  gives_nothing : Reply (Unit {0}) → Response

-- A result under its constructor.
abbrev in_memory : {A : Type 0} → (Reply A → Response) → Outcome A → MemoryStore × Response
in_memory wrap (m, r) = (m, wrap (as_reply r))

abbrev in_database : {S A : Type 0} → (Reply A → Response) → S × Reply A → S × Response
in_database wrap (s, r) = (s, wrap r)

abbrev listing : {S A : Type 0} → (List A → Response) → S × List A → S × Response
listing wrap (s, l) = (s, wrap l)

unfoldable pub serve_memory : Env → Request → MemoryStore → MemoryStore × Response
serve_memory e (creates_pratica p actor) m =
    in_memory gives_pratica (Pratiche.create_pratica e p actor m)
serve_memory e (patches_draft id user changes) m =
    in_memory gives_pratica (Pratiche.update_pratica_as_draft e id user changes m)
serve_memory e (deletes_draft id user) m =
    in_memory gives_nothing (Pratiche.delete_pratica_as_draft id user m)
serve_memory e (submits id user) m = in_memory gives_pratica (Pratiche.submit_pratica e id user m)
serve_memory e (changes_state id actor next note) m =
    in_memory gives_pratica (Pratiche.change_pratica_state e id actor next note m)
serve_memory e (assigns id operatore actor) m =
    in_memory gives_pratica (Note.assign_operatore e id operatore actor m)
serve_memory e (adds_nota id actor message internal) m =
    in_memory gives_pratica (Note.add_nota e id actor message internal m)
serve_memory e (requests_documento id actor documento note) m =
    in_memory gives_pratica (Note.request_documento e id actor documento note m)
serve_memory e (adds_documento id d) m =
    in_memory gives_documento (Documenti.add_documento e id d m)
serve_memory e (deletes_documento id doc) m =
    in_memory gives_bool (Documenti.delete_documento e id doc m)
serve_memory e (verifies_user user attivo verificata) m =
    in_memory gives_bool (Users.set_user_verification_state e user attivo verificata m)
serve_memory e (sets_totp_secret user secret) m =
    in_memory gives_bool (Users.set_user_totp_secret e user secret m)
serve_memory e (enables_totp user enabled) m =
    in_memory gives_bool (Users.set_user_totp_enabled e user enabled m)
serve_memory e (sets_password user hash) m =
    in_memory gives_bool (Users.update_user_password e user hash m)
serve_memory e (creates_payment id provider amount) m =
    in_memory gives_payment (Payments.create_payment e id provider amount m)
serve_memory e (updates_checkout id session link) m =
    in_memory gives_payment (Payments.update_payment_checkout id session link m)
serve_memory e (confirms token) m =
    in_memory gives_payment (Payments.confirm_payment_by_token e token m)
serve_memory e (refunds token) m =
    in_memory gives_payment (Payments.refund_payment_by_token token m)
serve_memory e (opens_session q) m = in_memory gives_session (Sessions.create_refresh_session e q m)
serve_memory e (reads_session id) m =
    in_memory gives_session (Sessions.get_refresh_session_by_id e id m)
serve_memory e (revokes_session id replaced_by) m =
    in_memory gives_bool (Sessions.revoke_refresh_session e id replaced_by m)
serve_memory e (revokes_sessions user) m =
    let (m', n) = Sessions.revoke_all_refresh_sessions_by_user e user m in
    (m', gives_count (done n))
serve_memory e (lists_sessions user) m =
    listing gives_sessions (Sessions.list_refresh_sessions_by_user e user m)
serve_memory e (creates_token t) m =
    in_memory gives_token (Sessions.create_password_reset_token e t m)
serve_memory e (consumes_token token) m =
    in_memory gives_token (Sessions.consume_password_reset_token e token m)
serve_memory e (blocks entry) m = in_memory gives_blocked (Ips.upsert_blocked_ip e entry m)
serve_memory e (unblocks ip) m = in_memory gives_bool (Ips.remove_blocked_ip ip m)
serve_memory e (reads_blocked ip) m = in_memory gives_blocked (Ips.get_blocked_ip e ip m)
serve_memory e (allows entry) m = in_memory gives_allowed (Ips.upsert_allowed_ip e entry m)
serve_memory e (disallows ip) m = in_memory gives_bool (Ips.remove_allowed_ip ip m)
serve_memory e (reads_allowed ip) m = in_memory gives_allowed (Ips.get_allowed_ip e ip m)
serve_memory e lists_blocked m = listing gives_blocked_ips (Ips.list_blocked_ips e m)
serve_memory e lists_allowed m = listing gives_allowed_ips (Ips.list_allowed_ips e m)
serve_memory e (logs_security evt) m = in_memory gives_security (Events.add_security_event e evt m)
serve_memory e (logs_audit evt) m = in_memory gives_audit (Events.add_audit_event e evt m)

module _ {S : Type 0} (db : MongoStore S) where
  unfoldable pub serve_mongo : Env → Request → S → S × Response
  serve_mongo e (creates_pratica p actor) s =
      in_database gives_pratica (MongoPratiche.create_pratica db e p actor s)
  serve_mongo e (patches_draft id user changes) s =
      in_database gives_pratica (MongoPratiche.update_pratica_as_draft db e id user changes s)
  serve_mongo e (deletes_draft id user) s =
      in_database gives_nothing (MongoPratiche.delete_pratica_as_draft db id user s)
  serve_mongo e (submits id user) s =
      in_database gives_pratica (MongoPratiche.submit_pratica db e id user s)
  serve_mongo e (changes_state id actor next note) s =
      in_database gives_pratica (MongoPratiche.change_pratica_state db e id actor next note s)
  serve_mongo e (assigns id operatore actor) s =
      in_database gives_pratica (MongoPratiche.assign_operatore db e id operatore actor s)
  serve_mongo e (adds_nota id actor message internal) s =
      in_database gives_pratica (MongoPratiche.add_nota db e id actor message internal s)
  serve_mongo e (requests_documento id actor documento note) s =
      in_database gives_pratica (MongoPratiche.request_documento db e id actor documento note s)
  serve_mongo e (adds_documento id d) s =
      in_database gives_documento (MongoPratiche.add_documento db e id d s)
  serve_mongo e (deletes_documento id doc) s =
      in_database gives_bool (MongoPratiche.delete_documento db e id doc s)
  serve_mongo e (verifies_user user attivo verificata) s =
      in_database gives_bool (MongoUsers.set_user_verification_state db e user attivo verificata s)
  serve_mongo e (sets_totp_secret user secret) s =
      in_database gives_bool (MongoUsers.set_user_totp_secret db e user secret s)
  serve_mongo e (enables_totp user enabled) s =
      in_database gives_bool (MongoUsers.set_user_totp_enabled db e user enabled s)
  serve_mongo e (sets_password user hash) s =
      in_database gives_bool (MongoUsers.update_user_password db e user hash s)
  serve_mongo e (creates_payment id provider amount) s =
      in_database gives_payment (MongoPayments.create_payment db e id provider amount s)
  serve_mongo e (updates_checkout id session link) s =
      in_database gives_payment (MongoPayments.update_payment_checkout db id session link s)
  serve_mongo e (confirms token) s =
      in_database gives_payment (MongoPayments.confirm_payment_by_token db e token s)
  serve_mongo e (refunds token) s =
      in_database gives_payment (MongoPayments.refund_payment_by_token db token s)
  serve_mongo e (opens_session q) s =
      in_database gives_session (MongoSessions.create_refresh_session db e q s)
  serve_mongo e (reads_session id) s =
      in_database gives_session (MongoSessions.get_refresh_session_by_id db e id s)
  serve_mongo e (revokes_session id replaced_by) s =
      in_database gives_bool (MongoSessions.revoke_refresh_session db e id replaced_by s)
  serve_mongo e (revokes_sessions user) s =
      in_database gives_count (MongoSessions.revoke_all_refresh_sessions_by_user db e user s)
  serve_mongo e (lists_sessions user) s =
      listing gives_sessions (MongoSessions.list_refresh_sessions_by_user db e user s)
  serve_mongo e (creates_token t) s =
      in_database gives_token (MongoSessions.create_password_reset_token db e t s)
  serve_mongo e (consumes_token token) s =
      in_database gives_token (MongoSessions.consume_password_reset_token db e token s)
  serve_mongo e (blocks entry) s =
      in_database gives_blocked (MongoIps.upsert_blocked_ip db e entry s)
  serve_mongo e (unblocks ip) s = in_database gives_bool (MongoIps.remove_blocked_ip db ip s)
  serve_mongo e (reads_blocked ip) s = in_database gives_blocked (MongoIps.get_blocked_ip db e ip s)
  serve_mongo e (allows entry) s =
      in_database gives_allowed (MongoIps.upsert_allowed_ip db e entry s)
  serve_mongo e (disallows ip) s = in_database gives_bool (MongoIps.remove_allowed_ip db ip s)
  serve_mongo e (reads_allowed ip) s = in_database gives_allowed (MongoIps.get_allowed_ip db e ip s)
  serve_mongo e lists_blocked s = listing gives_blocked_ips (MongoIps.list_blocked_ips db e s)
  serve_mongo e lists_allowed s = listing gives_allowed_ips (MongoIps.list_allowed_ips db e s)
  serve_mongo e (logs_security evt) s =
      in_database gives_security (MongoEvents.add_security_event db e evt s)
  serve_mongo e (logs_audit evt) s =
      in_database gives_audit (MongoEvents.add_audit_event db e evt s)
