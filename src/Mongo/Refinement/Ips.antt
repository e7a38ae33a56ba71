-- ===== src/Mongo/Refinement/Ips.antt =====
-- The lists of addresses of internal/store/mongo.go, method by method against memory.go.
use visto_easy.Prelude.{
  ◌≢◌, refl, inl, inr, String, ◌==◌, Bool-cases, Option-cases, eq_of_==, trim_space,
}
use visto_easy.Prelude.Clock.{Env, after_opt}
use visto_easy.Prelude.Dict.{Dict, lookup}
use visto_easy.Model.{BlockedIp, AllowedIp}
use visto_easy.Store.State.{MemoryStore}
use visto_easy.Store.Ips as Memory
use visto_easy.Store.Ips.{stored_blocked, stored_allowed}
use visto_easy.Mongo.Driver.{MongoStore}
use visto_easy.Mongo.Tables.{Tables, Serves}
use visto_easy.Mongo.Ips as Mongo
use visto_easy.Mongo.Refinement.Keyed.{erase-absent}
use visto_easy.Mongo.Refinement.Keys.{upsert_lem, delete_lem}
use visto_easy.Mongo.Refinement.Reads.{read_then}
use visto_easy.Mongo.Refinement.Writes.{write_blocked_ips, write_allowed_ips}
use visto_easy.Mongo.Refinement.Simulation.{Refines, Simulates, Simulates-guard}

module _ {S : Type 0} (view : S → Tables) (db : MongoStore S) (h : Serves view db) (e : Env) (s : S)
    (m : MemoryStore) (r : Refines (view s) m) where
  Blocked : Tables → Dict BlockedIp → Type 0
  Blocked t d = Refines t (record m { blocked_ips = d })

  pub upsert_blocked_ip_lem :
      (entry : BlockedIp)
      → Simulates view (Mongo.upsert_blocked_ip db e entry s) (Memory.upsert_blocked_ip e entry m)
  unfolding Mongo.upsert_blocked_ip Memory.upsert_blocked_ip Blocked
  upsert_blocked_ip_lem entry =
      let (n, answered, r') =
        upsert_lem h.blocked_ips (λ (v : BlockedIp). v.ip) s r.blocked_ips Blocked
          (λ u l d' p k. write_blocked_ips r p k) r (trim_space entry.ip)
          (stored_blocked (trim_space entry.ip) (e.now 0) entry) refl refl in
      Simulates-guard view s m r _ (trim_space entry.ip == "")
        λ _. rw answered (record { replies = refl; refines = r' })

  pub remove_blocked_ip_lem :
      (ip : String)
      → Simulates view (Mongo.remove_blocked_ip db ip s) (Memory.remove_blocked_ip ip m)
  unfolding Mongo.remove_blocked_ip Memory.remove_blocked_ip Blocked
  remove_blocked_ip_lem ip =
      let (answered, r') =
        delete_lem h.blocked_ips (λ (v : BlockedIp). v.ip) s r.blocked_ips Blocked
          (λ u l d' p k. write_blocked_ips r p k) r (trim_space ip) in
      Simulates-guard view s m r _ (trim_space ip == "") λ _.
        rw answered (elim (Option-cases (lookup (trim_space ip) m.blocked_ips)) [
          | inl absent ↦ rw absent (record {
            replies = refl;
            refines =
                rw (erase-absent (λ (v : BlockedIp). v.ip) (trim_space ip) m.blocked_ips absent) at
                  r';
          })
          | inr (v, at) ↦ rw at (record { replies = refl; refines = r' })
        ])

  -- Of an address that is not blank, since memory.go looks a blank one up.
  pub get_blocked_ip_lem :
      (ip : String)
      → trim_space ip ≢ ""
      → Simulates view (Mongo.get_blocked_ip db e ip s) (Memory.get_blocked_ip e ip m)
  unfolding Mongo.get_blocked_ip Memory.get_blocked_ip Blocked
  get_blocked_ip_lem ip named =
      let key = λ (v : BlockedIp). v.ip in
      elim (Bool-cases (trim_space ip == "")) [
        | inl blank ↦ absurd (named (eq_of_== (trim_space ip) "" blank))
        | inr present ↦ rw present (
            read_then h.blocked_ips key s r.blocked_ips (trim_space ip) m r λ v at.
              elim (Bool-cases (after_opt (e.now 0) v.expires_at)) [
                | inl dead ↦ rw dead (record {
                  replies = refl;
                  refines =
                      (delete_lem h.blocked_ips key s r.blocked_ips Blocked
                        (λ u l d' p k. write_blocked_ips r p k) r (trim_space ip)).1;
                })
                | inr live ↦ rw live (record { replies = refl; refines = r })
              ])
      ]

  Allowed : Tables → Dict AllowedIp → Type 0
  Allowed t d = Refines t (record m { allowed_ips = d })

  pub upsert_allowed_ip_lem :
      (entry : AllowedIp)
      → Simulates view (Mongo.upsert_allowed_ip db e entry s) (Memory.upsert_allowed_ip e entry m)
  unfolding Mongo.upsert_allowed_ip Memory.upsert_allowed_ip Allowed
  upsert_allowed_ip_lem entry =
      let (n, answered, r') =
        upsert_lem h.allowed_ips (λ (v : AllowedIp). v.ip) s r.allowed_ips Allowed
          (λ u l d' p k. write_allowed_ips r p k) r (trim_space entry.ip)
          (stored_allowed (trim_space entry.ip) (e.now 0) entry) refl refl in
      Simulates-guard view s m r _ (trim_space entry.ip == "")
        λ _. rw answered (record { replies = refl; refines = r' })

  pub remove_allowed_ip_lem :
      (ip : String)
      → Simulates view (Mongo.remove_allowed_ip db ip s) (Memory.remove_allowed_ip ip m)
  unfolding Mongo.remove_allowed_ip Memory.remove_allowed_ip Allowed
  remove_allowed_ip_lem ip =
      let (answered, r') =
        delete_lem h.allowed_ips (λ (v : AllowedIp). v.ip) s r.allowed_ips Allowed
          (λ u l d' p k. write_allowed_ips r p k) r (trim_space ip) in
      Simulates-guard view s m r _ (trim_space ip == "") λ _.
        rw answered (elim (Option-cases (lookup (trim_space ip) m.allowed_ips)) [
          | inl absent ↦ rw absent (record {
            replies = refl;
            refines =
                rw (erase-absent (λ (v : AllowedIp). v.ip) (trim_space ip) m.allowed_ips absent) at
                  r';
          })
          | inr (v, at) ↦ rw at (record { replies = refl; refines = r' })
        ])

  -- Of an address that is not blank, since memory.go looks a blank one up.
  pub get_allowed_ip_lem :
      (ip : String)
      → trim_space ip ≢ ""
      → Simulates view (Mongo.get_allowed_ip db e ip s) (Memory.get_allowed_ip e ip m)
  unfolding Mongo.get_allowed_ip Memory.get_allowed_ip Allowed
  get_allowed_ip_lem ip named =
      let key = λ (v : AllowedIp). v.ip in
      elim (Bool-cases (trim_space ip == "")) [
        | inl blank ↦ absurd (named (eq_of_== (trim_space ip) "" blank))
        | inr present ↦ rw present (
            read_then h.allowed_ips key s r.allowed_ips (trim_space ip) m r λ v at.
              elim (Bool-cases (after_opt (e.now 0) v.expires_at)) [
                | inl dead ↦ rw dead (record {
                  replies = refl;
                  refines =
                      (delete_lem h.allowed_ips key s r.allowed_ips Allowed
                        (λ u l d' p k. write_allowed_ips r p k) r (trim_space ip)).1;
                })
                | inr live ↦ rw live (record { replies = refl; refines = r })
              ])
      ]
