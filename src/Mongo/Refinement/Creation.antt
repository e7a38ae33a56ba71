-- ===== src/Mongo/Refinement/Creation.antt =====
-- CreatePratica of internal/store/mongo.go against that of memory.go: the counter is a document of
-- its own there.
use Prim.Native.Nat.{◌%◌, ◌^◌}
use Prim.Native.String.{◌++◌ as ◌++ₛ◌}
use visto_easy.Prelude.{
  ℕ, true, ◌+◌, ◌<◌, Bool, ◌≡◌, refl, sym, inl, inr, String, List, [], ◌∷◌, ◌++◌, none, some,
  on_some, ◌==◌, ==_refl, ◌||◌, arith, Bool-cases, Option-cases,
}
use visto_easy.Prelude.Clock.{Env, decimal, year}
use visto_easy.Prelude.Dict.{lookup}
use visto_easy.Model.{Pratica}
use visto_easy.Store.State.{MemoryStore}
use visto_easy.Store.Pratiche as Memory
use visto_easy.Mongo.Driver.{MongoStore, Counter, answer}
use visto_easy.Mongo.Tables.{Tables, Serves, first, update_first}
use visto_easy.Mongo.Pratiche as Mongo
use visto_easy.Mongo.Refinement.Keyed.{Keyed-insert_fresh}
use visto_easy.Mongo.Refinement.Simulation.{Refines, Simulates}

module _ {D : Type 0} (q : D → Bool) where
  pub first-append :
      (d : D) (ds : List D) → first q ds ≡ none → q d ≡ true → first q (ds ++ d ∷ []) ≡ some d
  unfolding first
  first-append d [] h k = rw k refl
  first-append d (c ∷ ds) h k = ground (arith, first-append d ds)

  first-matches : (ds : List D) (d : D) → first q ds ≡ some d → q d ≡ true
  unfolding first
  first-matches [] d h = absurd (ground arith)
  first-matches (c ∷ ds) d h = elim (Bool-cases (q c)) [
    | inl hit ↦ let same : c ≡ d = ground arith in rw (← same) hit
    | inr miss ↦ first-matches ds d (rw miss at h)
  ]

  first-update_first :
      (f : D → D) (ds : List D) (d : D)
      → first q ds ≡ some d
      → q (f d) ≡ true
      → first q (update_first q f ds) ≡ some (f d)
  unfolding first update_first
  first-update_first f [] d h k = absurd (ground arith)
  first-update_first f (c ∷ ds) d h k = elim (Bool-cases (q c)) [
    | inl hit ↦ let same : c ≡ d = ground arith in rw (hit, same, k) refl
    | inr miss ↦ rw (miss, miss) (first-update_first f ds d (rw miss at h) k)
  ]

-- The code that the next pratica gets.
abbrev next_code : Env → MemoryStore → String
next_code e m = "VST-" ++ₛ decimal 0 (year (e.now 0)) ++ₛ "-" ++ₛ decimal 6 (m.pratica_counter + 1)

-- The counter counts on, and the identifier and the code are those of no pratica.
pub record IsFresh (e : Env) (t : Tables) (m : MemoryStore) : Type 0 where
  pub counts : m.pratica_counter + 1 < 2 ^ 63
  pub unused : lookup (e.uuid 0) m.pratiche ≡ none
  pub unclashed : first (λ b. b.id == e.uuid 0 || b.codice == next_code e m) t.pratiche ≡ none

module _ {S : Type 0} (view : S → Tables) (db : MongoStore S) (h : Serves view db) (s : S)
    (m : MemoryStore) (r : Refines (view s) m) where
  next_pratica_seq_lem :
      (l : List Counter) × (on_some (first (λ c. c.key == "pratica") l) 0 (λ c. c.seq)
        ≡ m.pratica_counter + 1)
      × ((Mongo.next_pratica_seq db s).1 ≡ answer (m.pratica_counter + 1))
      × (view (Mongo.next_pratica_seq db s).0 ≡ record (view s) { counters = l })
  unfolding Mongo.next_pratica_seq
  next_pratica_seq_lem =
      let q = λ (c : Counter). c.key == "pratica" in
      let f = λ (c : Counter). record c { seq = c.seq + 1 } in
      let new : Counter = record { key = "pratica"; seq = 1 } in
      let ds = (view s).counters in
      elim (Option-cases (first q ds)) [
        | inl absent ↦
            let (answered, after') = h.counters.find_one_and_upsert_miss q f new s absent absent in
            let z : m.pratica_counter ≡ 0 = sym (rw absent at r.counters) in
            (
              ds ++ new ∷ [],
              rw (first-append q new ds absent (==_refl "pratica")) (rw z refl),
              rw answered (rw z refl),
              after',
            )
        | inr (c, found) ↦
            let (answered, after') = h.counters.find_one_and_upsert_hit q f new s c found refl in
            let z : c.seq ≡ m.pratica_counter = rw found at r.counters in
            (
              update_first q f ds,
              rw (first-update_first q f ds c found (first-matches q ds c found)) (rw z refl),
              rw answered (rw z refl),
              after',
            )
      ]

  pub create_pratica_lem :
      (e : Env) (p : Pratica) (actor : String)
      → IsFresh e (view s) m
      → Simulates view (Mongo.create_pratica db e p actor s) (Memory.create_pratica e p actor m)
  unfolding Mongo.create_pratica Memory.create_pratica
  create_pratica_lem e p actor fresh =
      let (l, counted, answered, after') = next_pratica_seq_lem in
      let small : (m.pratica_counter + 1) % 2 ^ 64 ≡ m.pratica_counter + 1 =
        omega (arith, fresh.counts) in
      let s' = (Mongo.next_pratica_seq db s).0 in
      let stored = λ (n : ℕ). Memory.created e p actor n in
      let p' = stored (m.pratica_counter + 1) in
      let (inserted, after'') = h.pratiche.insert_one_fresh p' s' (rw after' fresh.unclashed) in
      rw (small, answered, inserted)
        (record {
          replies = refl;
          refines =
              rw (after'', after')
                (record {
                  users = r.users;
                  pratiche =
                      Keyed-insert_fresh (λ (q : Pratica). q.id) r.pratiche (e.uuid 0) p' refl
                        fresh.unused;
                  pagamenti = r.pagamenti;
                  tokens = r.tokens;
                  refresh_sessions = r.refresh_sessions;
                  password_reset_tokens = r.password_reset_tokens;
                  blocked_ips = r.blocked_ips;
                  allowed_ips = r.allowed_ips;
                  security_events = r.security_events;
                  audit_events = r.audit_events;
                  counters = counted;
                });
        })
