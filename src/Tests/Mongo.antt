-- ===== src/Tests/Mongo.antt =====
-- internal/store/mongo.go on a server that keeps lists.
use mathlib.Core.List.{Perm}
use visto_easy.Prelude.{
  true, false, ◌≡◌, refl, List, [], ◌∷◌, none, some, arith, String-discrete, trim_space, to_lower,
  drop, ◌||◌, ◌==◌,
}
use visto_easy.Prelude.Clock.{Env, decimal, year}
use visto_easy.Prelude.Dict.{lookup, insert, values}
use visto_easy.Model.{bozza, Pratica, RefreshSession, PasswordResetToken, BlockedIp}
use visto_easy.Store.State.{empty_store, not_found, invalid_state, forbidden_state}
use visto_easy.Store.Order.{IsLatestFirst, latest_first}
use visto_easy.Store.Pratiche as Memory
use visto_easy.Mongo.Driver.{done, refused, find_by}
use visto_easy.Mongo.Tables.{Tables, first, update_first, update_all, select}
use visto_easy.Mongo.Server.{list_store, list_store-Serves, empty_tables}
use visto_easy.Mongo.Pratiche as Mongo
use visto_easy.Mongo.Payments.{mark_webhook_event_processed}
use visto_easy.Mongo.Sessions as Sessions
use visto_easy.Mongo.Ips as MongoIps
use visto_easy.Store.Sessions as MemorySessions
use visto_easy.Store.Sessions.{use_token}
use visto_easy.Store.Ips.{upsert_blocked_ip, list_blocked_ips, list_allowed_ips}
use visto_easy.Store.Pratiche.{allowed_transition}
use visto_easy.Mongo.Sessions.{use_read_token, revoke_all_refresh_sessions_by_user}
use visto_easy.Mongo.Races.{use_read_token-use_read_token, mark_webhook_event_processed_lem}
use visto_easy.Mongo.Refinement.Simulation.{Refines}
use visto_easy.Mongo.Refinement.Requests
use visto_easy.Mongo.Refinement.Requests.{Request}
use visto_easy.Mongo.Refinement.Sequences.{run_memory, run_mongo}
use visto_easy.Mongo.Refinement.Replies.{run_mongo-run_memory}
use visto_easy.Mongo.Refinement.Lists.{
  list_pratiche-perm, live_sessions, revoke_all_refresh_sessions_by_user-live,
}
use visto_easy.Tests.Data.{at, asked, pratica_in, holding_in}

-- The empty stores correspond.
empty-Refines : Refines empty_tables empty_store
unfolding values first
empty-Refines = record {
  users = record { same = refl; keyed = tt; is_map = tt };
  pratiche = record { same = refl; keyed = tt; is_map = tt };
  pagamenti = record { same = refl; keyed = tt; is_map = tt };
  tokens = tt;
  refresh_sessions = record { same = refl; keyed = tt; is_map = tt };
  password_reset_tokens = record { same = refl; keyed = tt; is_map = tt };
  blocked_ips = record { same = refl; keyed = tt; is_map = tt };
  allowed_ips = record { same = refl; keyed = tt; is_map = tt };
  security_events = refl;
  audit_events = refl;
  counters = refl;
}

abbrev session : RefreshSession
session = record {
  id = "s";
  user_id = "anna";
  role = "RICHIEDENTE";
  revoked = false;
  revoked_at = none;
  replaced_by = "";
  expires_at = 1000;
  creato_il = 0;
  aggiornato_il = 0;
}

abbrev block : BlockedIp
block = record {
  ip = "10.0.0.1";
  reason = "";
  blocked_by = "";
  blocked_at = 0;
  expires_at = some 99;
}

-- A draft is created and submitted, a session opened, listed and revoked
-- twice, and an address blocked and listed.
abbrev calls : List (Env × Request)
calls =
    (at 10 "p", Requests.creates_pratica asked "anna")
    ∷ (at 20 "e", Requests.submits "p" "anna")
    ∷ (at 30 "f", Requests.changes_state "p" "anna" bozza "")
    ∷ (at 40 "g", Requests.opens_session session)
    ∷ (at 45 "h", Requests.lists_sessions " anna")
    ∷ (at 50 "h", Requests.revokes_sessions "anna")
    ∷ (at 60 "i", Requests.revokes_session "s" "")
    ∷ (at 65 "j", Requests.blocks block)
    ∷ (at 70 "j", Requests.lists_blocked)
    ∷ (at 80 "k", Requests.lists_allowed)
    ∷ []

run_mongo-run_memory_example :
    run_mongo list_store calls empty_tables ≡ run_memory calls empty_store
unfolding lookup first trim_space values insert String-discrete Requests.serve_memory
    MemorySessions.create_refresh_session MemorySessions.list_refresh_sessions_by_user
    MemorySessions.revoke_refresh_session MemorySessions.revoke_all_refresh_sessions_by_user
    Memory.change_pratica_state Memory.submit_pratica Memory.create_pratica allowed_transition
    latest_first upsert_blocked_ip list_blocked_ips list_allowed_ips
run_mongo-run_memory_example =
    run_mongo-run_memory (λ t. t) list_store list_store-Serves calls empty_tables empty_store
      empty-Refines
      (
        record { counts = omega arith; unused = refl; unclashed = refl },
        (
          tt,
          (
            tt,
            (
              refl,
              (
                (((λ e. ground arith), tt), (tt, tt)),
                (
                  (λ _. ground arith, tt),
                  (tt, (tt, ((((λ e. ground arith), tt), (tt, tt)), ((tt, tt), tt)))),
                ),
              ),
            ),
          ),
        ),
      )

-- The move back is refused, the session listed, and the second revocation finds nothing to do.
calls_shown :
    drop 2 (run_mongo list_store calls empty_tables)
    ≡ Requests.gives_pratica (refused invalid_state)
      ∷ Requests.gives_session (done (record session { creato_il = 40; aggiornato_il = 40 }))
      ∷ Requests.gives_sessions (record session { creato_il = 40; aggiornato_il = 40 } ∷ [])
      ∷ Requests.gives_count (done 1)
      ∷ Requests.gives_bool (done false)
      ∷ Requests.gives_blocked (done (record block { blocked_at = 65 }))
      ∷ Requests.gives_blocked_ips (record block { blocked_at = 65 } ∷ [])
      ∷ Requests.gives_allowed_ips []
      ∷ []
unfolding run_mongo Requests.serve_mongo Mongo.create_pratica Mongo.submit_pratica Mongo.get_pratica
    Mongo.change_pratica_state Mongo.replace_pratica Sessions.create_refresh_session
    Sessions.revoke_refresh_session Sessions.list_refresh_sessions_by_user
    revoke_all_refresh_sessions_by_user MongoIps.upsert_blocked_ip MongoIps.list_blocked_ips
    MongoIps.list_allowed_ips find_by first update_first update_all select latest_first
    String-discrete trim_space decimal year allowed_transition
calls_shown = refl

-- One token, which two requests have read.
abbrev token : PasswordResetToken
token = record {
  token = "t";
  purpose = "";
  user_id = "anna";
  email = "";
  expires_at = 1000;
  used_at = none;
  creato_il = 0;
  aggiornato_il = 0;
}

abbrev token_tables : Tables
token_tables = record empty_tables { password_reset_tokens = token ∷ [] }

use_read_token-use_read_token_example :
    (use_read_token list_store 20 "t" token
      (use_read_token list_store 10 "t" token token_tables).0).1
    ≡ refused not_found
unfolding use_read_token first update_first values lookup String-discrete
use_read_token-use_read_token_example =
    use_read_token-use_read_token (λ t. t) list_store list_store-Serves 10 20 "t" token
      (use_token 10 token) token token_tables (("t", token) ∷ [])
      (record { same = refl; keyed = (refl, tt); is_map = (refl, tt) }) refl

mark_webhook_event_processed_lem_example :
    let o =
      mark_webhook_event_processed list_store (at 10 "a") " Stripe" "evt" "pay" empty_tables in
    let again = mark_webhook_event_processed list_store (at 20 "b") "stripe " "evt " "" o.0 in
    ((to_lower (trim_space " Stripe") == "" || trim_space "evt" == "") ≡ true
      → (o.1 ≡ refused forbidden_state) × (o.0 ≡ empty_tables))
    × ((to_lower (trim_space " Stripe") == "" || trim_space "evt" == "") ≡ false
        → (o.1 ≡ done false) × (again.1 ≡ done true) × (again.0 ≡ o.0))
unfolding to_lower trim_space first
mark_webhook_event_processed_lem_example =
    mark_webhook_event_processed_lem (λ t. t) list_store list_store-Serves (at 10 "a") (at 20 "b")
      " Stripe" "evt" "pay" "stripe " "evt " "" empty_tables refl refl

-- A pratica in both stores.
abbrev pratica_tables : Tables
pratica_tables = record empty_tables { pratiche = pratica_in bozza ∷ [] }

pratica-Refines : Refines pratica_tables (holding_in bozza)
unfolding values first lookup
pratica-Refines = record {
  users = record { same = refl; keyed = tt; is_map = tt };
  pratiche = record { same = refl; keyed = (refl, tt); is_map = (refl, tt) };
  pagamenti = record { same = refl; keyed = tt; is_map = tt };
  tokens = tt;
  refresh_sessions = record { same = refl; keyed = tt; is_map = tt };
  password_reset_tokens = record { same = refl; keyed = tt; is_map = tt };
  blocked_ips = record { same = refl; keyed = tt; is_map = tt };
  allowed_ips = record { same = refl; keyed = tt; is_map = tt };
  security_events = refl;
  audit_events = refl;
  counters = refl;
}

list_pratiche-perm_example :
    let time = λ (p : Pratica). p.creato_il in
    Perm
      (Mongo.list_pratiche_by_user list_store "anna" pratica_tables)
      (Memory.list_pratiche_by_user "anna" (holding_in bozza))
    × IsLatestFirst time (Mongo.list_pratiche_by_user list_store "anna" pratica_tables)
    × Perm
        (Mongo.list_all_pratiche list_store pratica_tables)
        (Memory.list_all_pratiche (holding_in bozza))
    × IsLatestFirst time (Mongo.list_all_pratiche list_store pratica_tables)
list_pratiche-perm_example =
    list_pratiche-perm (λ t. t) list_store list_store-Serves pratica_tables (holding_in bozza)
      "anna" pratica-Refines

abbrev session_tables : Tables
session_tables = record empty_tables {
  refresh_sessions =
      session ∷ record session { id = "s2"; revoked = true } ∷ record session { id = "s3" } ∷ [];
}

revoke_all_refresh_sessions_by_user-live_example :
    let o = revoke_all_refresh_sessions_by_user list_store (at 10 "a") "anna" session_tables in
    (o.1 ≡ done 2) × (live_sessions 10 "anna" o.0 ≡ [])
unfolding select String-discrete trim_space
revoke_all_refresh_sessions_by_user-live_example =
    revoke_all_refresh_sessions_by_user-live (λ t. t) list_store list_store-Serves session_tables
      (at 10 "a") "anna"
