-- ===== src/Mongo/Refinement/Listings.antt =====
-- ListRefreshSessionsByUser, ListBlockedIPs and ListAllowedIPs of internal/store/mongo.go against
-- those of memory.go.
use mathlib.Core.HLevel.{hedberg}
use visto_easy.Prelude.{
  Bool, true, not, ◌≡◌, ◌≢◌, refl, String, List, [], ◌∷◌, Option, none, some, ◌==◌, ◌&&◌, arith,
  String-discrete, All, trim_space, ltb, leb,
}
use visto_easy.Prelude.Clock.{Env, Time, after, after_opt}
use visto_easy.Prelude.Dict.{Dict, values}
use visto_easy.Model.{RefreshSession, BlockedIp, AllowedIp}
use visto_easy.Store.State.{MemoryStore}
use visto_easy.Store.Order.Strict.{IsStrict}
use visto_easy.Store.Order.{latest_first}
use visto_easy.Store.Sessions as Memory
use visto_easy.Store.Sessions.{unexpired, sessions_of}
use visto_easy.Store.Ips as MemoryIps
use visto_easy.Store.Ips.{purge}
use visto_easy.Mongo.Driver.{MongoStore, Collection, list_by}
use visto_easy.Mongo.Tables.{Tables, Answers, Serves, select}
use visto_easy.Mongo.Sessions as Mongo
use visto_easy.Mongo.Ips as MongoIps
use visto_easy.Mongo.Ips.{is_over}
use visto_easy.Mongo.Refinement.Keyed.{Keyed}
use visto_easy.Mongo.Refinement.Lists.{select-all}
use visto_easy.Mongo.Refinement.Purges.{keep, Keyed-keep, list_by-keep}
use visto_easy.Mongo.Refinement.Writes.{
  write_refresh_sessions, write_blocked_ips, write_allowed_ips,
}
use visto_easy.Mongo.Refinement.Simulation.{Refines}

-- No entry ends at the very instant.
abbrev pub Apart : {D : Type 0} → (D → Option Time) → Time → Dict D → Type 0
Apart expiry now m = All (λ d. expiry d ≢ some now) (values m)

String-IsSet : IsSet String
String-IsSet = hedberg String-discrete

unexpired-keep :
    (now : Time) (d : Dict RefreshSession)
    → unexpired now d ≡ keep (λ r. not (after now r.expires_at)) d
unfolding unexpired keep
unexpired-keep now [] = refl
unexpired-keep now ((k, r) ∷ d) = ground (arith, unexpired-keep now d)

sessions_of-select :
    (user : String) (d : Dict RefreshSession)
    → sessions_of user d ≡ select (λ r. r.user_id == user) (values d)
unfolding sessions_of select values
sessions_of-select user [] = refl
sessions_of-select user ((k, r) ∷ d) = ground (arith, sessions_of-select user d)

module _ {D : Type 0} (expiry : D → Option Time) (now : Time) where
  purge-keep : (d : Dict D) → purge expiry now d ≡ keep (λ b. not (after_opt now (expiry b))) d
  unfolding purge keep
  purge-keep [] = refl
  purge-keep ((k, b) ∷ d) = ground (arith, purge-keep d)

  over-also : (o : Option Time) → o ≢ some now → not (after_opt now o) ≡ not (is_over now o)
  over-also none h = refl
  over-also (some t) h = ground arith

  Apart-over :
      (d : Dict D)
      → Apart expiry now d
      → All (λ b. not (after_opt now (expiry b)) ≡ not (is_over now (expiry b))) (values d)
  unfolding values
  Apart-over [] h = tt
  Apart-over ((k, b) ∷ d) (h, hs) = (over-also (expiry b) h, Apart-over d hs)

ends_later : (t now : Time) → some t ≢ some now → not (after now t) ≡ not (leb t now)
ends_later t now h = over-also (λ (_ : Time). none) now (some t) h

Apart-later :
    (now : Time) (d : Dict RefreshSession)
    → Apart (λ (r : RefreshSession). some r.expires_at) now d
    → All (λ r. not (after now r.expires_at) ≡ not (leb r.expires_at now)) (values d)
unfolding values
Apart-later now [] h = tt
Apart-later now ((k, r) ∷ d) (h, hs) = (ends_later r.expires_at now h, Apart-later now d hs)

RefreshSession-IsSet : IsSet RefreshSession
RefreshSession-IsSet = hlevel String-IsSet

BlockedIp-IsSet : IsSet BlockedIp
BlockedIp-IsSet = hlevel String-IsSet

AllowedIp-IsSet : IsSet AllowedIp
AllowedIp-IsSet = hlevel String-IsSet

module _ {S D : Type 0} {view : S → Tables} {docs : Tables → List D}
    {put : List D → Tables → Tables} {clash : D → D → Bool} {c : Collection S D}
    (h : Answers view docs put clash c) (docs-put : (l : List D) (t : Tables) → docs (put l t) ≡ l)
    {key : D → String} (s : S) {m : Dict D} (k : Keyed key (docs (view s)) m)
    (expiry : D → Option Time) (time : D → Time) (now : Time) (apart : Apart expiry now m) where
  -- A list of entries that may end: what the deletion leaves, and the list.
  purged :
      IsSet D
      → let over = λ (d : D). is_over now (expiry d) in
        let left = select (λ d. not (over d)) (docs (view s)) in
        (view (c.delete_many over s).0 ≡ put left (view s))
        × Keyed key left (purge expiry now m)
        × (IsStrict time (latest_first time (values (purge expiry now m)))
            → list_by c (λ d. not (over d)) time none (c.delete_many over s).0
              ≡ latest_first time (values (purge expiry now m)))
  purged set =
      let live = λ (d : D). not (after_opt now (expiry d)) in
      let over = λ (d : D). is_over now (expiry d) in
      let all = λ (d : D). true in
      let agrees = Apart-over expiry now m apart in
      let (after', k') =
        Keyed-keep h docs-put s k live over all (λ d. not (over d)) time agrees (λ d. refl) in
      rw (purge-keep expiry now m) (
        after',
        k',
        λ strict.
            let every = select-all (values (keep live m)) in
            let lists =
              list_by-keep h docs-put s k live over all (λ d. not (over d)) time agrees (λ d. refl)
                set (rw every strict) in
            rw every at lists,
      )

module _ {S : Type 0} (view : S → Tables) (db : MongoStore S) (h : Serves view db) (e : Env) (s : S)
    (m : MemoryStore) (r : Refines (view s) m) where
  -- The same list, and contents that correspond again.
  abbrev pub Lists : {D : Type 0} → S × List D → MemoryStore × List D → Type 0
  Lists o o' = (o.1 ≡ o'.1) × Refines (view o.0) o'.0

  -- Where none of the sessions ends at the very instant, and no two of those that are listed were
  -- created in one.
  pub list_refresh_sessions_by_user_lem :
      (user : String)
      → Apart (λ (q : RefreshSession). some q.expires_at) (e.now 0) m.refresh_sessions
      → IsStrict
          (λ (q : RefreshSession). q.creato_il)
          (Memory.list_refresh_sessions_by_user e user m).1
      → Lists
          (Mongo.list_refresh_sessions_by_user db e user s)
          (Memory.list_refresh_sessions_by_user e user m)
  unfolding Mongo.list_refresh_sessions_by_user Memory.list_refresh_sessions_by_user
  list_refresh_sessions_by_user_lem user apart strict =
      let now = e.now 0 in
      let user' = trim_space user in
      let live = λ (q : RefreshSession). not (after now q.expires_at) in
      let over = λ (q : RefreshSession). leb q.expires_at now in
      let mine = λ (q : RefreshSession). q.user_id == user' in
      let asked = λ (q : RefreshSession). q.user_id == user' && ltb now q.expires_at in
      let time = λ (q : RefreshSession). q.creato_il in
      let agrees = Apart-later now m.refresh_sessions apart in
      let (after', k) =
        Keyed-keep h.refresh_sessions (λ l t. refl) s r.refresh_sessions live over mine asked time
          agrees (λ q. ground arith) in
      let strict' =
        rw
          (
            unexpired-keep now m.refresh_sessions,
            sessions_of-select user' (keep live m.refresh_sessions),
          )
          at strict in
      let lists =
        list_by-keep h.refresh_sessions (λ l t. refl) s r.refresh_sessions live over mine asked time
          agrees (λ q. ground arith) RefreshSession-IsSet strict' in
      rw
        (
          unexpired-keep now m.refresh_sessions,
          sessions_of-select user' (keep live m.refresh_sessions),
        )
        (lists, write_refresh_sessions r after' k)

  -- Likewise for the addresses.
  pub list_blocked_ips_lem :
      Apart (λ (b : BlockedIp). b.expires_at) (e.now 0) m.blocked_ips
      → IsStrict (λ (b : BlockedIp). b.blocked_at) (MemoryIps.list_blocked_ips e m).1
      → Lists (MongoIps.list_blocked_ips db e s) (MemoryIps.list_blocked_ips e m)
  unfolding MongoIps.list_blocked_ips MemoryIps.list_blocked_ips
  list_blocked_ips_lem apart strict =
      let (after', k, lists) =
        purged h.blocked_ips (λ l t. refl) s r.blocked_ips (λ b. b.expires_at) (λ b. b.blocked_at)
          (e.now 0) apart BlockedIp-IsSet in
      (lists strict, write_blocked_ips r after' k)

  pub list_allowed_ips_lem :
      Apart (λ (a : AllowedIp). a.expires_at) (e.now 0) m.allowed_ips
      → IsStrict (λ (a : AllowedIp). a.allowed_at) (MemoryIps.list_allowed_ips e m).1
      → Lists (MongoIps.list_allowed_ips db e s) (MemoryIps.list_allowed_ips e m)
  unfolding MongoIps.list_allowed_ips MemoryIps.list_allowed_ips
  list_allowed_ips_lem apart strict =
      let (after', k, lists) =
        purged h.allowed_ips (λ l t. refl) s r.allowed_ips (λ a. a.expires_at) (λ a. a.allowed_at)
          (e.now 0) apart AllowedIp-IsSet in
      (lists strict, write_allowed_ips r after' k)
