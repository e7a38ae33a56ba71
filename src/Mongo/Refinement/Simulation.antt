-- ===== src/Mongo/Refinement/Simulation.antt =====
-- When the database of mongo.go holds what the maps of memory.go hold, and what it is for a method
-- of the one to do what the method of the other does.
use visto_easy.Prelude.{Bool, true, false, if◌then◌else◌, ◌≡◌, refl, ◌==◌, on_some}
use visto_easy.Model.{
  Utente, Pratica, Pagamento, RefreshSession, PasswordResetToken, BlockedIp, AllowedIp,
}
use visto_easy.Store.State.{StoreError, MemoryStore, Result, ok, err, Outcome}
use visto_easy.Mongo.Driver.{Reply, done, refused}
use visto_easy.Mongo.Tables.{Tables, first}
use visto_easy.Mongo.Refinement.Keyed.{Keyed}
use visto_easy.Mongo.Refinement.Tokens.{HaveTokens}

-- The tables hold the values of the maps, in one order, each under its key, and no two payments
-- share a token. The logs are equal
-- and the counter stands at the same number, no counter being 0. The seen webhook events have no
-- part in it, since the two stores tell them apart in different ways, nor has the index of
-- addresses, which the database does not keep.
pub record Refines (t : Tables) (m : MemoryStore) : Type 0 where
  pub users : Keyed (λ (u : Utente). u.id) t.users m.users
  pub pratiche : Keyed (λ (p : Pratica). p.id) t.pratiche m.pratiche
  pub pagamenti : Keyed (λ (p : Pagamento). p.id) t.pagamenti m.payments
  pub tokens : HaveTokens t.pagamenti
  pub refresh_sessions : Keyed (λ (r : RefreshSession). r.id) t.refresh_sessions m.refresh_sessions
  pub password_reset_tokens :
      Keyed (λ (p : PasswordResetToken). p.token) t.password_reset_tokens m.password_reset_tokens
  pub blocked_ips : Keyed (λ (b : BlockedIp). b.ip) t.blocked_ips m.blocked_ips
  pub allowed_ips : Keyed (λ (a : AllowedIp). a.ip) t.allowed_ips m.allowed_ips
  pub security_events : t.security_events ≡ m.security_events
  pub audit_events : t.audit_events ≡ m.audit_events
  pub counters :
      on_some (first (λ c. c.key == "pratica") t.counters) 0 (λ c. c.seq) ≡ m.pratica_counter

-- The reply of the database for a result of the memory.
abbrev pub as_reply : {A : Type 0} → Result A → Reply A
as_reply (ok a) = done a
as_reply (err x) = refused x

-- The same reply, and contents that correspond again.
pub record Simulates {S A : Type 0} (view : S → Tables) (o : S × Reply A) (o' : Outcome A)
    : Type 0 where
  pub replies : o.1 ≡ as_reply o'.1
  pub refines : Refines (view o.0) o'.0

module _ {S A : Type 0} (view : S → Tables) (s : S) (m : MemoryStore) (r : Refines (view s) m) where
  -- A refusal that both state by the same test.
  pub Simulates-guard :
      (x : StoreError) {o : S × Reply A} {o' : Outcome A} (b : Bool)
      → (b ≡ false → Simulates view o o')
      → Simulates view (if b then (s, refused x) else o) (if b then (m, err x) else o')
  Simulates-guard x true f = record { replies = refl; refines = r }
  Simulates-guard x false f = f refl
