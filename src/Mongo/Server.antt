-- ===== src/Mongo/Server.antt =====
-- A server that answers: tables kept as lists, each with the operations of a collection. It shows
-- that what is assumed of the database in Tables can hold, and runs the store in tests.
use visto_easy.Prelude.{
  Bool, false, not, refl, List, [], ◌∷◌, ◌++◌, on_some, length, ◌==◌, ◌&&◌, ◌||◌,
}
use visto_easy.Store.Order.{latest_first, latest_first-perm, latest_first-IsLatestFirst}
use visto_easy.Mongo.Driver.{answer, duplicate_key, Counts, Collection, MongoStore}
use visto_easy.Mongo.Tables.{
  Tables, Answers, Serves, first, select, update_first, update_all, remove_first, limited,
}

abbrev one_match : Counts
one_match = record { matched = 1; modified = 1 }

abbrev no_match : Counts
no_match = record { matched = 0; modified = 0 }

module _ {D : Type 0} (docs : Tables → List D) (put : List D → Tables → Tables)
    (clash : D → D → Bool) where
  -- Every match counts as modified.
  abbrev table : Collection Tables D
  table = record {
    find_one = λ q t. answer (first q (docs t));
    find = λ q time limit t. answer (limited limit (latest_first time (select q (docs t))));
    insert_one = λ d t.
        on_some (first (clash d) (docs t)) (put (docs t ++ d ∷ []) t, answer tt)
          λ _. (t, duplicate_key);
    update_one = λ q f t.
        on_some (first q (docs t)) (t, answer no_match)
          λ _. (put (update_first q f (docs t)) t, answer one_match);
    upsert_one = λ q f d t.
        on_some (first q (docs t)) (put (docs t ++ d ∷ []) t, answer no_match)
          λ _. (put (update_first q f (docs t)) t, answer one_match);
    update_many = λ q f t.
        let n = length (select q (docs t)) in
        (put (update_all q f (docs t)) t, answer (record { matched = n; modified = n }));
    find_one_and_upsert = λ q f d t.
        on_some (first q (docs t)) (put (docs t ++ d ∷ []) t, answer d)
          λ old. (put (update_first q f (docs t)) t, answer (f old));
    delete_one = λ q t.
        on_some (first q (docs t)) (t, answer 0) λ _. (put (remove_first q (docs t)) t, answer 1);
    delete_many =
        λ q t. (put (select (λ d. not (q d)) (docs t)) t, answer (length (select q (docs t))));
  }

  table-Answers : Answers (λ t. t) docs put clash table
  table-Answers = record {
    find_one_lem = λ q s. refl;
    find_lem = λ q time limit s. (
      latest_first time (select q (docs s)),
      latest_first-perm time (select q (docs s)),
      latest_first-IsLatestFirst time (select q (docs s)),
      refl,
    );
    insert_one_fresh = λ d s h. rw h (refl, refl);
    insert_one_twice = λ d s old h. rw h (refl, refl);
    update_one_miss = λ q f s h. rw h (refl, refl);
    update_one_hit = λ q f s d h _. (1, rw h refl, (λ _. refl), rw h refl);
    upsert_one_miss = λ q f new s h _. (no_match, rw h refl, rw h refl);
    upsert_one_hit = λ q f new s d h _. (one_match, rw h refl, rw h refl);
    find_one_and_upsert_miss = λ q f new s h _. rw h (refl, refl);
    find_one_and_upsert_hit = λ q f new s d h _. rw h (refl, refl);
    delete_one_miss = λ q s h. rw h (refl, refl);
    delete_one_hit = λ q s d h. rw h (refl, refl);
    delete_many_lem = λ q s. refl;
    update_many_lem = λ q f s _ _. (refl, (length (select q (docs s)), refl));
  }

-- The store over such tables, with the unique indexes of `ensureIndexes`.
abbrev pub list_store : MongoStore Tables
list_store = record {
  users = table (λ t. t.users) (λ l t. record t { users = l }) (λ a b. b.email == a.email);
  pratiche =
      table (λ t. t.pratiche) (λ l t. record t { pratiche = l })
        (λ a b. b.id == a.id || b.codice == a.codice);
  pagamenti =
      table (λ t. t.pagamenti) (λ l t. record t { pagamenti = l }) (λ a b. b.token == a.token);
  refresh_sessions =
      table (λ t. t.refresh_sessions) (λ l t. record t { refresh_sessions = l })
        (λ a b. b.id == a.id);
  password_reset_tokens =
      table (λ t. t.password_reset_tokens) (λ l t. record t { password_reset_tokens = l })
        (λ a b. b.token == a.token);
  webhooks =
      table (λ t. t.webhooks) (λ l t. record t { webhooks = l })
        (λ a b. b.provider == a.provider && b.event_id == a.event_id);
  blocked_ips =
      table (λ t. t.blocked_ips) (λ l t. record t { blocked_ips = l }) (λ a b. b.ip == a.ip);
  allowed_ips =
      table (λ t. t.allowed_ips) (λ l t. record t { allowed_ips = l }) (λ a b. b.ip == a.ip);
  security_events =
      table (λ t. t.security_events) (λ l t. record t { security_events = l }) (λ a b. false);
  audit_events = table (λ t. t.audit_events) (λ l t. record t { audit_events = l }) (λ a b. false);
  counters = table (λ t. t.counters) (λ l t. record t { counters = l }) (λ a b. b.key == a.key);
}

pub list_store-Serves : Serves (λ t. t) list_store
list_store-Serves = record {
  users = table-Answers (λ t. t.users) (λ l t. record t { users = l }) (λ a b. b.email == a.email);
  pratiche =
      table-Answers (λ t. t.pratiche) (λ l t. record t { pratiche = l })
        (λ a b. b.id == a.id || b.codice == a.codice);
  pagamenti =
      table-Answers (λ t. t.pagamenti) (λ l t. record t { pagamenti = l })
        (λ a b. b.token == a.token);
  refresh_sessions =
      table-Answers (λ t. t.refresh_sessions) (λ l t. record t { refresh_sessions = l })
        (λ a b. b.id == a.id);
  password_reset_tokens =
      table-Answers (λ t. t.password_reset_tokens) (λ l t. record t { password_reset_tokens = l })
        (λ a b. b.token == a.token);
  webhooks =
      table-Answers (λ t. t.webhooks) (λ l t. record t { webhooks = l })
        (λ a b. b.provider == a.provider && b.event_id == a.event_id);
  blocked_ips =
      table-Answers (λ t. t.blocked_ips) (λ l t. record t { blocked_ips = l })
        (λ a b. b.ip == a.ip);
  allowed_ips =
      table-Answers (λ t. t.allowed_ips) (λ l t. record t { allowed_ips = l })
        (λ a b. b.ip == a.ip);
  security_events =
      table-Answers (λ t. t.security_events) (λ l t. record t { security_events = l })
        (λ a b. false);
  audit_events =
      table-Answers (λ t. t.audit_events) (λ l t. record t { audit_events = l }) (λ a b. false);
  counters =
      table-Answers (λ t. t.counters) (λ l t. record t { counters = l }) (λ a b. b.key == a.key);
}

abbrev pub empty_tables : Tables
empty_tables = record {
  users = [];
  pratiche = [];
  pagamenti = [];
  refresh_sessions = [];
  password_reset_tokens = [];
  webhooks = [];
  blocked_ips = [];
  allowed_ips = [];
  security_events = [];
  audit_events = [];
  counters = [];
}
