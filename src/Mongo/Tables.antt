-- ===== src/Mongo/Tables.antt =====
-- The contents of the database as lists of documents, and what the driver's documentation says
-- that each operation does to them where the server answers.
use mathlib.Core.List.{Perm}
use visto_easy.Prelude.{
  ℕ, Bool, true, false, not, ◌≡◌, ◌≢◌, List, [], ◌∷◌, ◌++◌, Option, none, some, if◌then◌else◌, take,
  length, ◌==◌, ◌&&◌, ◌||◌,
}
use visto_easy.Prelude.Clock.{Time}
use visto_easy.Model.{
  Utente, Pratica, Pagamento, RefreshSession, PasswordResetToken, BlockedIp, AllowedIp,
  SecurityEvent, AuditEvent,
}
use visto_easy.Store.Order.{IsLatestFirst}
use visto_easy.Mongo.Driver.{
  answer, duplicate_key, Counts, Collection, MongoStore, WebhookEvent, Counter,
}

module _ {D : Type 0} (q : D → Bool) where
  -- The first document that a filter matches.
  unfoldable pub first : List D → Option D
  first [] = none
  first (d ∷ ds) = if q d then some d else first ds

  unfoldable pub select : List D → List D
  select [] = []
  select (d ∷ ds) = let rest = select ds in if q d then d ∷ rest else rest

  -- The first document that it matches, taken out, or changed.
  unfoldable pub remove_first : List D → List D
  remove_first [] = []
  remove_first (d ∷ ds) = if q d then ds else d ∷ remove_first ds

  unfoldable pub update_first : (D → D) → List D → List D
  update_first f [] = []
  update_first f (d ∷ ds) = if q d then f d ∷ ds else d ∷ update_first f ds

  -- Every document that it matches, changed.
  unfoldable pub update_all : (D → D) → List D → List D
  update_all f [] = []
  update_all f (d ∷ ds) = (if q d then f d else d) ∷ update_all f ds

pub record Tables : Type 0 where
  pub users : List Utente
  pub pratiche : List Pratica
  pub pagamenti : List Pagamento
  pub refresh_sessions : List RefreshSession
  pub password_reset_tokens : List PasswordResetToken
  pub webhooks : List WebhookEvent
  pub blocked_ips : List BlockedIp
  pub allowed_ips : List AllowedIp
  pub security_events : List SecurityEvent
  pub audit_events : List AuditEvent
  pub counters : List Counter

abbrev pub limited : {D : Type 0} → Option ℕ → List D → List D
limited none ds = ds
limited (some n) ds = take n ds

-- A collection whose documents are those that `docs` reads in what the server keeps and `put`
-- writes there, with the unique indexes in which two documents clash: every operation is
-- answered, does to the documents what its name says, and leaves the rest of the database alone.
-- Where a filter matches several documents the database is free to choose; here the first is
-- meant, which makes no difference to a filter on a unique index.
pub record Answers {S D : Type 0} (view : S → Tables) (docs : Tables → List D)
    (put : List D → Tables → Tables) (clash : D → D → Bool) (c : Collection S D) : Type 0 where
  pub find_one_lem : (q : D → Bool) (s : S) → c.find_one q s ≡ answer (first q (docs (view s)))
  pub find_lem :
      (q : D → Bool) (time : D → Time) (limit : Option ℕ) (s : S)
      → (ds : List D) × Perm ds (select q (docs (view s)))
        × IsLatestFirst time ds
        × (c.find q time limit s ≡ answer (limited limit ds))
  pub insert_one_fresh :
      (d : D) (s : S)
      → first (clash d) (docs (view s)) ≡ none
      → ((c.insert_one d s).1 ≡ answer tt)
        × (view (c.insert_one d s).0 ≡ put (docs (view s) ++ d ∷ []) (view s))
  pub insert_one_twice :
      (d : D) (s : S) (old : D)
      → first (clash d) (docs (view s)) ≡ some old
      → ((c.insert_one d s).1 ≡ duplicate_key) × (view (c.insert_one d s).0 ≡ view s)
  pub update_one_miss :
      (q : D → Bool) (f : D → D) (s : S)
      → first q (docs (view s)) ≡ none
      → ((c.update_one q f s).1 ≡ answer (record { matched = 0; modified = 0 }))
        × (view (c.update_one q f s).0 ≡ view s)
  -- Of an update that leaves the keys alone; one that changes nothing does not count as one.
  pub update_one_hit :
      (q : D → Bool) (f : D → D) (s : S) (d : D)
      → first q (docs (view s)) ≡ some d
      → clash (f d) ≡ clash d
      → (n : ℕ) × ((c.update_one q f s).1 ≡ answer (record { matched = 1; modified = n }))
        × (f d ≢ d → n ≡ 1)
        × (view (c.update_one q f s).0 ≡ put (update_first q f (docs (view s))) (view s))
  pub upsert_one_miss :
      (q : D → Bool) (f : D → D) (new : D) (s : S)
      → first q (docs (view s)) ≡ none
      → first (clash new) (docs (view s)) ≡ none
      → (n : Counts) × ((c.upsert_one q f new s).1 ≡ answer n)
        × (view (c.upsert_one q f new s).0 ≡ put (docs (view s) ++ new ∷ []) (view s))
  pub upsert_one_hit :
      (q : D → Bool) (f : D → D) (new : D) (s : S) (d : D)
      → first q (docs (view s)) ≡ some d
      → clash (f d) ≡ clash d
      → (n : Counts) × ((c.upsert_one q f new s).1 ≡ answer n)
        × (view (c.upsert_one q f new s).0 ≡ put (update_first q f (docs (view s))) (view s))
  pub find_one_and_upsert_miss :
      (q : D → Bool) (f : D → D) (new : D) (s : S)
      → first q (docs (view s)) ≡ none
      → first (clash new) (docs (view s)) ≡ none
      → ((c.find_one_and_upsert q f new s).1 ≡ answer new)
        × (view (c.find_one_and_upsert q f new s).0 ≡ put (docs (view s) ++ new ∷ []) (view s))
  pub find_one_and_upsert_hit :
      (q : D → Bool) (f : D → D) (new : D) (s : S) (d : D)
      → first q (docs (view s)) ≡ some d
      → clash (f d) ≡ clash d
      → ((c.find_one_and_upsert q f new s).1 ≡ answer (f d))
        × (view (c.find_one_and_upsert q f new s).0
            ≡ put (update_first q f (docs (view s))) (view s))
  pub delete_one_miss :
      (q : D → Bool) (s : S)
      → first q (docs (view s)) ≡ none
      → ((c.delete_one q s).1 ≡ answer 0) × (view (c.delete_one q s).0 ≡ view s)
  pub delete_one_hit :
      (q : D → Bool) (s : S) (d : D)
      → first q (docs (view s)) ≡ some d
      → ((c.delete_one q s).1 ≡ answer 1)
        × (view (c.delete_one q s).0 ≡ put (remove_first q (docs (view s))) (view s))
  pub delete_many_lem :
      (q : D → Bool) (s : S)
      → view (c.delete_many q s).0 ≡ put (select (λ d. not (q d)) (docs (view s))) (view s)
  pub update_many_lem :
      (q : D → Bool) (f : D → D) (s : S)
      → ((d : D) → q d ≡ true → f d ≢ d)
      → ((d : D) → clash (f d) ≡ clash d)
      → (view (c.update_many q f s).0 ≡ put (update_all q f (docs (view s))) (view s))
        × ((n : ℕ) × ((c.update_many q f s).1
              ≡ answer (record { matched = n; modified = length (select q (docs (view s))) })))

-- The server behind a store: `view` reads its tables, whose unique indexes are those that
-- `ensureIndexes` asks for, and the default one on `_id` for the counters.
pub record Serves {S : Type 0} (view : S → Tables) (db : MongoStore S) : Type 0 where
  pub users :
      Answers view
        (λ t. t.users)
        (λ l t. record t { users = l })
        (λ a b. b.email == a.email)
        db.users
  pub pratiche :
      Answers view
        (λ t. t.pratiche)
        (λ l t. record t { pratiche = l })
        (λ a b. b.id == a.id || b.codice == a.codice)
        db.pratiche
  pub pagamenti :
      Answers view
        (λ t. t.pagamenti)
        (λ l t. record t { pagamenti = l })
        (λ a b. b.token == a.token)
        db.pagamenti
  pub refresh_sessions :
      Answers view
        (λ t. t.refresh_sessions)
        (λ l t. record t { refresh_sessions = l })
        (λ a b. b.id == a.id)
        db.refresh_sessions
  pub password_reset_tokens :
      Answers view
        (λ t. t.password_reset_tokens)
        (λ l t. record t { password_reset_tokens = l })
        (λ a b. b.token == a.token)
        db.password_reset_tokens
  pub webhooks :
      Answers view
        (λ t. t.webhooks)
        (λ l t. record t { webhooks = l })
        (λ a b. b.provider == a.provider && b.event_id == a.event_id)
        db.webhooks
  pub blocked_ips :
      Answers view
        (λ t. t.blocked_ips)
        (λ l t. record t { blocked_ips = l })
        (λ a b. b.ip == a.ip)
        db.blocked_ips
  pub allowed_ips :
      Answers view
        (λ t. t.allowed_ips)
        (λ l t. record t { allowed_ips = l })
        (λ a b. b.ip == a.ip)
        db.allowed_ips
  pub security_events :
      Answers view
        (λ t. t.security_events)
        (λ l t. record t { security_events = l })
        (λ a b. false)
        db.security_events
  pub audit_events :
      Answers view
        (λ t. t.audit_events)
        (λ l t. record t { audit_events = l })
        (λ a b. false)
        db.audit_events
  pub counters :
      Answers view
        (λ t. t.counters)
        (λ l t. record t { counters = l })
        (λ a b. b.key == a.key)
        db.counters
