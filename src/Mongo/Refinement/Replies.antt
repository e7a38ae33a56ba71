-- ===== src/Mongo/Refinement/Replies.antt =====
-- The two stores of internal/store reply alike to every sequence of calls.
use visto_easy.Prelude.{◌≡◌, refl, ap, List, [], ◌∷◌}
use visto_easy.Prelude.Clock.{Env}
use visto_easy.Store.State.{MemoryStore, Outcome}
use visto_easy.Mongo.Driver.{MongoStore, Reply}
use visto_easy.Mongo.Tables.{Tables, Serves}
use visto_easy.Mongo.Refinement.Methods
use visto_easy.Mongo.Refinement.Creation
use visto_easy.Mongo.Refinement.Payments
use visto_easy.Mongo.Refinement.Sessions
use visto_easy.Mongo.Refinement.Revocation
use visto_easy.Mongo.Refinement.Listings
use visto_easy.Mongo.Refinement.Users
use visto_easy.Mongo.Refinement.Ips
use visto_easy.Mongo.Refinement.Requests.{
  Request, Response, serve_memory, serve_mongo, gives_allowed, gives_audit, gives_blocked,
  gives_bool, gives_count, gives_sessions, gives_blocked_ips, gives_allowed_ips, gives_documento,
  gives_nothing, gives_payment, gives_pratica, gives_security, gives_session, gives_token,
  creates_pratica, patches_draft, deletes_draft, submits, changes_state, assigns, adds_nota,
  requests_documento, adds_documento, deletes_documento, verifies_user, sets_totp_secret,
  enables_totp, sets_password, creates_payment, updates_checkout, confirms, refunds, opens_session,
  reads_session, revokes_session, revokes_sessions, lists_sessions, lists_blocked, lists_allowed,
  creates_token, consumes_token, blocks, unblocks, reads_blocked, allows, disallows, reads_allowed,
  logs_security, logs_audit,
}
use visto_easy.Mongo.Refinement.Sequences.{Agrees, AllAgree, run_memory, run_mongo}
use visto_easy.Mongo.Refinement.Simulation.{Refines, Simulates, as_reply}

module _ {S : Type 0} (view : S → Tables) (db : MongoStore S) (h : Serves view db) (e : Env) (s : S)
    (m : MemoryStore) (r : Refines (view s) m) where
  abbrev Agree : S × Response → MemoryStore × Response → Type 0
  Agree o o' = (o.1 ≡ o'.1) × Refines (view o.0) o'.0

  wrapped :
      {A : Type 0} (wrap : Reply A → Response) (o : S × Reply A) (o' : Outcome A)
      → Simulates view o o'
      → (wrap o.1 ≡ wrap (as_reply o'.1)) × Refines (view o.0) o'.0
  wrapped wrap o o' sim = (ap wrap sim.replies, sim.refines)

  listed :
      {A : Type 0} (wrap : List A → Response) (o : S × List A) (o' : MemoryStore × List A)
      → Listings.Lists view db h e s m r o o'
      → (wrap o.1 ≡ wrap o'.1) × Refines (view o.0) o'.0
  listed wrap o o' (same, refines) = (ap wrap same, refines)

  serve-Agree :
      (q : Request) → Agrees e q (view s) m → Agree (serve_mongo db e q s) (serve_memory e q m)
  unfolding serve_mongo serve_memory
  serve-Agree (creates_pratica p actor) agrees =
      wrapped gives_pratica _ _ (Creation.create_pratica_lem view db h s m r e p actor agrees)
  serve-Agree (patches_draft id user changes) _ =
      wrapped gives_pratica _ _
        (Methods.update_pratica_as_draft_lem view db h e s m r id user changes)
  serve-Agree (deletes_draft id user) agrees =
      wrapped gives_nothing _ _
        (Methods.delete_pratica_as_draft_lem view db h e s m r id user agrees)
  serve-Agree (submits id user) _ =
      wrapped gives_pratica _ _ (Methods.submit_pratica_lem view db h e s m r id user)
  serve-Agree (changes_state id actor next note) _ =
      wrapped gives_pratica _ _
        (Methods.change_pratica_state_lem view db h e s m r id actor next note)
  serve-Agree (assigns id operatore actor) _ =
      wrapped gives_pratica _ _ (Methods.assign_operatore_lem view db h e s m r id operatore actor)
  serve-Agree (adds_nota id actor message internal) _ =
      wrapped gives_pratica _ _ (Methods.add_nota_lem view db h e s m r id actor message internal)
  serve-Agree (requests_documento id actor documento note) _ =
      wrapped gives_pratica _ _
        (Methods.request_documento_lem view db h e s m r id actor documento note)
  serve-Agree (adds_documento id d) _ =
      wrapped gives_documento _ _ (Methods.add_documento_lem view db h e s m r id d)
  serve-Agree (deletes_documento id doc) agrees =
      wrapped gives_bool _ _ (Methods.delete_documento_lem view db h e s m r id doc agrees)
  serve-Agree (verifies_user user attivo verificata) _ =
      wrapped gives_bool _ _
        (Users.set_user_verification_state_lem view db h s m r e user attivo verificata)
  serve-Agree (sets_totp_secret user secret) _ =
      wrapped gives_bool _ _ (Users.set_user_totp_secret_lem view db h s m r e user secret)
  serve-Agree (enables_totp user enabled) _ =
      wrapped gives_bool _ _ (Users.set_user_totp_enabled_lem view db h s m r e user enabled)
  serve-Agree (sets_password user hash) _ =
      wrapped gives_bool _ _ (Users.update_user_password_lem view db h s m r e user hash)
  serve-Agree (creates_payment id provider amount) agrees =
      wrapped gives_payment _ _
        (Payments.create_payment_lem view db h s m r e id provider amount agrees.0 agrees.1)
  serve-Agree (updates_checkout id session link) agrees =
      wrapped gives_payment _ _
        (Payments.update_payment_checkout_lem view db h s m r id session link agrees)
  serve-Agree (confirms token) _ =
      wrapped gives_payment _ _ (Payments.confirm_payment_by_token_lem view db h s m r e token)
  serve-Agree (refunds token) agrees =
      wrapped gives_payment _ _ (Payments.refund_payment_by_token_lem view db h s m r token agrees)
  serve-Agree (opens_session q) agrees =
      wrapped gives_session _ _ (Sessions.create_refresh_session_lem view db h e s m r q agrees)
  serve-Agree (reads_session id) _ =
      wrapped gives_session _ _ (Sessions.get_refresh_session_by_id_lem view db h e s m r id)
  serve-Agree (revokes_session id replaced_by) _ =
      wrapped gives_bool _ _ (Sessions.revoke_refresh_session_lem view db h e s m r id replaced_by)
  serve-Agree (revokes_sessions user) agrees =
      wrapped gives_count _ _
        (Revocation.revoke_all_refresh_sessions_by_user_lem view db h e s m r user agrees)
  serve-Agree (lists_sessions user) agrees =
      listed gives_sessions _ _
        (Listings.list_refresh_sessions_by_user_lem view db h e s m r user agrees.0 agrees.1)
  serve-Agree (creates_token t) _ =
      wrapped gives_token _ _ (Sessions.create_password_reset_token_lem view db h e s m r t)
  serve-Agree (consumes_token token) agrees =
      wrapped gives_token _ _
        (Sessions.consume_password_reset_token_lem view db h e s m r token agrees)
  serve-Agree (blocks entry) _ =
      wrapped gives_blocked _ _ (Ips.upsert_blocked_ip_lem view db h e s m r entry)
  serve-Agree (unblocks ip) _ =
      wrapped gives_bool _ _ (Ips.remove_blocked_ip_lem view db h e s m r ip)
  serve-Agree (reads_blocked ip) agrees =
      wrapped gives_blocked _ _ (Ips.get_blocked_ip_lem view db h e s m r ip agrees)
  serve-Agree (allows entry) _ =
      wrapped gives_allowed _ _ (Ips.upsert_allowed_ip_lem view db h e s m r entry)
  serve-Agree (disallows ip) _ =
      wrapped gives_bool _ _ (Ips.remove_allowed_ip_lem view db h e s m r ip)
  serve-Agree (reads_allowed ip) agrees =
      wrapped gives_allowed _ _ (Ips.get_allowed_ip_lem view db h e s m r ip agrees)
  serve-Agree lists_blocked agrees =
      listed gives_blocked_ips _ _
        (Listings.list_blocked_ips_lem view db h e s m r agrees.0 agrees.1)
  serve-Agree lists_allowed agrees =
      listed gives_allowed_ips _ _
        (Listings.list_allowed_ips_lem view db h e s m r agrees.0 agrees.1)
  serve-Agree (logs_security evt) _ =
      wrapped gives_security _ _ (Users.add_security_event_lem view db h s m r e evt)
  serve-Agree (logs_audit evt) _ =
      wrapped gives_audit _ _ (Users.add_audit_event_lem view db h s m r e evt)

module _ {S : Type 0} (view : S → Tables) (db : MongoStore S) (h : Serves view db) where
  -- The store in a database implements the store in memory: with a server that answers, from
  -- contents that correspond, in which no two payments share a token, the two give the same list
  -- of results for every sequence of calls, each with its own clock and identifiers, of the methods
  -- that change pratiche, documents, payments, sessions, one-time tokens, address rules and logs
  -- and of those that change the verification, the second factor and the password of a user. The
  -- three reads and the three lists that drop ended sessions and address rules are among the calls;
  -- CreateUser and MarkWebhookEventProcessed are not. No call may be one of those in which the
  -- stores differ: the identifier of a created pratica and its code are those of no other, and the
  -- counter of pratiche stays below 2 ^ 63; a draft that is deleted is there; the documents of a
  -- pratica that loses one have different identifiers; the identifier and the token of a created
  -- payment are those of no other, and no payment is looked up by a blank identifier; the token of
  -- a refund and the identifier of an opened session have no spaces around them; no address rule
  -- is looked up by a blank address; a token is not used in the very instant at which it ends; when
  -- all sessions of a user are revoked, none of them has ended or ends at that instant; and when
  -- sessions, blocks or allowances are listed, none of the store ends at that very instant and no
  -- two of those listed have the same time.
  pub run_mongo-run_memory :
      (qs : List (Env × Request)) (s : S) (m : MemoryStore)
      → Refines (view s) m
      → AllAgree db view qs s m
      → run_mongo db qs s ≡ run_memory qs m
  unfolding run_mongo run_memory
  run_mongo-run_memory [] s m r agree = refl
  run_mongo-run_memory ((e, q) ∷ qs) s m r (now', later) =
      let (same, r') = serve-Agree view db h e s m r q now' in
      rw (same, run_mongo-run_memory qs _ _ r' later) refl
