-- ===== src/Http/IpRules/RoundTrip.antt =====
-- internal/httpapi/server.go: a block of an address and its removal.
use mathlib.Core.Path.{subst}
use visto_easy.Prelude.{
  false, ◌≡◌, refl, sym, ◌∙◌, inl, inr, String, none, some, ◌==◌, ==_refl, if◌then◌else◌, arith,
  Bool-cases, Option-cases, trim_space, ap,
}
use visto_easy.Prelude.Clock.{Env}
use visto_easy.Prelude.Dict.{lookup, insert, erase, lookup-erase, lookup-insert, lookup-insert_self}
use visto_easy.Model.{BlockedIp}
use visto_easy.Store.State.{MemoryStore}
use visto_easy.Store.Events.{time_or}
use visto_easy.Store.Ips.{remove_blocked_ip, upsert_blocked_ip}
use visto_easy.Http.Reply.{Claims, Reply, Body, write_json, blocked_body}
use visto_easy.Http.IpPolicy.{NetSyntax}
use visto_easy.Http.IpRules.{NetText, RuleSettings, RuleRequest, normalize_block_target}
use visto_easy.Http.IpRules.Blocked.{handle_bo_block_ip, handle_bo_unblock_ip}
use visto_easy.Http.IpRules.Removal.{event_keeps}

-- The rule in a reply.
abbrev stored_of : Body → BlockedIp → BlockedIp
stored_of (blocked_body b) default = b
stored_of _ default = default

module _ (net : NetSyntax) (text : NetText) where
  block_ip_stored :
      (settings : RuleSettings) (e : Env) (c : Claims) (req : RuleRequest) (s : MemoryStore)
      (b : BlockedIp)
      → let o = handle_bo_block_ip net text settings e c (some req) s in
        o.1 ≡ write_json 200 (blocked_body b)
        → (target : String) × (normalize_block_target net text req.ip ≡ some target)
          × ((trim_space target == "") ≡ false)
          × (b.ip ≡ trim_space target)
          × (b.blocked_by ≡ c.user_id)
          × (b.blocked_at ≡ time_or (e.now 0) (e.now 1))
          × (o.0.blocked_ips ≡ insert (trim_space target) b s.blocked_ips)
  unfolding handle_bo_block_ip upsert_blocked_ip
  block_ip_stored settings e c req s b h =
      elim (Option-cases (normalize_block_target net text req.ip)) [
        | inl bad ↦ absurd (cc (rw bad at h))
        | inr (target, good) ↦ elim (Bool-cases (trim_space target == "")) [
          | inl blank ↦ absurd (cc (rw (good, blank) at h))
          | inr present ↦
              let h' = rw (good, present) at h in
              let same = ap (λ (r : Reply). stored_of r.body b) h' in
              (
                target,
                good,
                present,
                sym (ap (λ (x : BlockedIp). x.ip) same),
                sym (ap (λ (x : BlockedIp). x.blocked_by) same),
                sym (ap (λ (x : BlockedIp). x.blocked_at) same),
                rw (good, present)
                    (event_keeps _ _ _
                      ∙ ap (λ (x : BlockedIp). insert (trim_space target) x s.blocked_ips) same),
              )
        ]
      ]

  unblock_ip_found :
      (e : Env) (c : Claims) (raw target : String) (s : MemoryStore) (b : BlockedIp)
      → normalize_block_target net text raw ≡ some target
      → (trim_space target == "") ≡ false
      → lookup (trim_space target) s.blocked_ips ≡ some b
      → let o = handle_bo_unblock_ip net text e c (some raw) s in
        (o.1.status ≡ 200) × (o.0.blocked_ips ≡ erase (trim_space target) s.blocked_ips)
  unfolding handle_bo_unblock_ip remove_blocked_ip
  unblock_ip_found e c raw target s b good present at =
      rw (good, present, at) (refl, event_keeps _ _ _)

  unblock_ip_missing :
      (e : Env) (c : Claims) (raw target : String) (s : MemoryStore)
      → normalize_block_target net text raw ≡ some target
      → (trim_space target == "") ≡ false
      → lookup (trim_space target) s.blocked_ips ≡ none
      → (handle_bo_unblock_ip net text e c (some raw) s).1.status ≡ 404
  unfolding handle_bo_unblock_ip remove_blocked_ip
  unblock_ip_missing e c raw target s good present at = rw (good, present, at) refl

-- Blocking and unblocking. When handleBOBlockIP has replied with 200 to a text, with the rule that
-- it stored, the rule stands in the denylist under its address, with the caller's name and the
-- time of the call, the handler's reading of the clock or, where that is the zero time, the
-- store's; handleBOUnblockIP of the same text then replies with 200, after which no rule
-- is there, and every other rule is as it was before the block; and a second handleBOUnblockIP is
-- a 404.
pub unblock_ip-block_ip :
    (net : NetSyntax) (text : NetText) (settings : RuleSettings) (e f g : Env) (c d : Claims)
    (req : RuleRequest) (s : MemoryStore) (b : BlockedIp)
    → let blocked = handle_bo_block_ip net text settings e c (some req) s in
      let freed = handle_bo_unblock_ip net text f d (some req.ip) blocked.0 in
      let again = handle_bo_unblock_ip net text g d (some req.ip) freed.0 in
      blocked.1 ≡ write_json 200 (blocked_body b)
      → (lookup b.ip blocked.0.blocked_ips ≡ some b)
        × (b.blocked_by ≡ c.user_id)
        × (b.blocked_at ≡ time_or (e.now 0) (e.now 1))
        × (freed.1.status ≡ 200)
        × ((k : String)
            → lookup k freed.0.blocked_ips ≡ (if b.ip == k then none else lookup k s.blocked_ips))
        × (again.1.status ≡ 404)
unblock_ip-block_ip net text settings e f g c d req s b h =
    let (target, good, present, named, by, on_time, stored) =
      block_ip_stored net text settings e c req s b h in
    let blocked = (handle_bo_block_ip net text settings e c (some req) s).0 in
    let k = trim_space target in
    let at : lookup k blocked.blocked_ips ≡ some b =
      rw stored (lookup-insert_self k b s.blocked_ips) in
    let (freed, erased) = unblock_ip_found net text f d req.ip target blocked b good present at in
    let after' = (handle_bo_unblock_ip net text f d (some req.ip) blocked).0 in
    let absent : lookup k after'.blocked_ips ≡ none =
      rw erased (lookup-erase k k blocked.blocked_ips ∙ rw (==_refl k) refl) in
    (
      subst (λ (x : String). lookup x blocked.blocked_ips ≡ some b) (sym named) at,
      by,
      on_time,
      freed,
      subst
          (λ (x : String).
            (j : String)
            → lookup j after'.blocked_ips ≡ (if x == j then none else lookup j s.blocked_ips))
          (sym named)
          (λ j.
            rw (erased, stored)
              (lookup-erase j k (insert k b s.blocked_ips)
                ∙ ground (arith, lookup-insert j k b s.blocked_ips))),
      unblock_ip_missing net text g d req.ip target after' good present absent,
    )
