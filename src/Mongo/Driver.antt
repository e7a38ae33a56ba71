-- ===== src/Mongo/Driver.antt =====
-- The MongoDB driver as internal/store/mongo.go calls it. The driver and the server behind it are
-- parameters: `S` is all that they keep, a filter document is the predicate on documents that it
-- stands for, and an update document is the function on documents that it stands for.
use visto_easy.Prelude.{ℕ, Bool, String, List, [], Option, on_some}
use visto_easy.Prelude.Clock.{Time}
use visto_easy.Model.{
  Utente, Pratica, Pagamento, RefreshSession, PasswordResetToken, BlockedIp, AllowedIp,
  SecurityEvent, AuditEvent,
}
use visto_easy.Store.State.{StoreError, not_found}

-- What a call of the driver returns: its answer, an error for which `mongo.IsDuplicateKeyError`
-- is true, or any other error.
pub data Answer (A : Type 0) : Type 0 where
  answer : A → Answer A
  duplicate_key : Answer A
  failure : Answer A

-- `mongo.UpdateResult`, as far as the store reads it.
pub record Counts : Type 0 where
  pub matched : ℕ
  pub modified : ℕ

-- `*mongo.Collection` with documents of type `D`. `find` sorts by the time, latest first, and
-- takes a limit; the upserts have the document that is inserted where none matches.
pub record Collection (S D : Type 0) : Type 0 where
  pub find_one : (D → Bool) → S → Answer (Option D)
  pub find : (D → Bool) → (D → Time) → Option ℕ → S → Answer (List D)
  pub insert_one : D → S → S × Answer (Unit {0})
  pub update_one : (D → Bool) → (D → D) → S → S × Answer Counts
  pub upsert_one : (D → Bool) → (D → D) → D → S → S × Answer Counts
  pub update_many : (D → Bool) → (D → D) → S → S × Answer Counts
  pub find_one_and_upsert : (D → Bool) → (D → D) → D → S → S × Answer D
  pub delete_one : (D → Bool) → S → S × Answer ℕ
  pub delete_many : (D → Bool) → S → S × Answer ℕ

-- A document of `webhook_events`.
pub record WebhookEvent : Type 0 where
  pub id : String
  pub provider : String
  pub event_id : String
  pub payment_id : String
  pub creato_il : Time

-- A document of `counters`.
pub record Counter : Type 0 where
  pub key : String
  pub seq : ℕ

pub record MongoStore (S : Type 0) : Type 0 where
  pub users : Collection S Utente
  pub pratiche : Collection S Pratica
  pub pagamenti : Collection S Pagamento
  pub refresh_sessions : Collection S RefreshSession
  pub password_reset_tokens : Collection S PasswordResetToken
  pub webhooks : Collection S WebhookEvent
  pub blocked_ips : Collection S BlockedIp
  pub allowed_ips : Collection S AllowedIp
  pub security_events : Collection S SecurityEvent
  pub audit_events : Collection S AuditEvent
  pub counters : Collection S Counter

-- The value and the `error` of a method: one of the store's own errors, or one of the driver's.
pub data Reply (A : Type 0) : Type 0 where
  done : A → Reply A
  refused : StoreError → Reply A
  fault : Reply A

-- `v, err := …; if err != nil { … }` on a call of the driver.
abbrev pub on_answer {ℓ} : {A : Type 0} {B : Type ℓ} → Answer A → B → (A → B) → B
on_answer (answer a) f k = k a
on_answer duplicate_key f k = f
on_answer failure f k = f

-- The same where a duplicate key is told apart.
abbrev pub on_insert {ℓ} : {A : Type 0} {B : Type ℓ} → Answer A → B → B → (A → B) → B
on_insert (answer a) twice f k = k a
on_insert duplicate_key twice f k = twice
on_insert failure twice f k = f

-- `v, err := …; if err != nil { return …, err }` on a method of the store.
abbrev pub on_reply : {S A B : Type 0} → S → Reply A → (A → S × Reply B) → S × Reply B
on_reply s (done a) k = k a
on_reply s (refused x) k = (s, refused x)
on_reply s fault k = (s, fault)

-- `err := c.FindOne(ctx, q).Decode(&d)`, with `errorsIsNotFound(err)` as `ErrNotFound`.
unfoldable pub find_by : {S D : Type 0} → Collection S D → (D → Bool) → S → Reply D
find_by c q s =
    on_answer (c.find_one q s) fault λ found. on_some found (refused not_found) λ d. done d

-- `cur, err := c.Find(ctx, q, sorted)` and the loop over the cursor: no result after an error.
unfoldable pub list_by :
    {S D : Type 0} → Collection S D → (D → Bool) → (D → Time) → Option ℕ → S → List D
list_by c q time limit s = on_answer (c.find q time limit s) [] λ ds. ds
