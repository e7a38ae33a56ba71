-- ===== src/Http/IpRules/Removal.antt =====
-- internal/httpapi/server.go: what the handlers that unblock addresses leave in the denylist.
use mathlib.Core.Path.{subst}
use visto_easy.Prelude.{
  ℕ, suc, ◌+◌, Bool, false, ◌≡◌, refl, sym, ◌∙◌, inl, inr, String, List, [], ◌∷◌, ◌++◌, Option,
  none, some, ◌==◌, ==_refl, if◌then◌else◌, arith, Bool-cases, Option-cases, trim_space, length,
  All,
}
use visto_easy.Prelude.Clock.{Env, skip}
use visto_easy.Prelude.Dict.{lookup, lookup-erase}
use visto_easy.Model.{SecurityEvent}
use visto_easy.Store.State.{MemoryStore, Result-cases, ok}
use visto_easy.Store.Events.{add_security_event}
use visto_easy.Store.Ips.{remove_blocked_ip}
use visto_easy.Http.Reply.{Claims, write_json, record_security_event, removal_body}
use visto_easy.Http.IpPolicy.{NetSyntax}
use visto_easy.Http.IpRules.{NetText, Removed, remove_step, remove_targets, normalize_block_target}
use visto_easy.Http.IpRules.Blocked.{handle_bo_unblock_ip_bulk}

pub event_keeps :
    (e : Env) (evt : SecurityEvent) (s : MemoryStore)
    → (record_security_event e evt s).blocked_ips ≡ s.blocked_ips
unfolding record_security_event add_security_event
event_keeps e evt s = ground arith

abbrev total : Removed → ℕ
total r = length r.removed + length r.not_found + length r.invalid

length-snoc : {A : Type 0} (xs : List A) (x : A) → length (xs ++ x ∷ []) ≡ suc (length xs)
length-snoc [] x = refl
length-snoc (y ∷ xs) x = omega (arith, length-snoc xs x)

-- No rule is left under the target of a text, if it has one.
abbrev pub IsGone : (String → Option String) → MemoryStore → String → Type 0
IsGone normalize s raw =
    (target : String)
    → normalize raw ≡ some target
    → lookup (trim_space target) s.blocked_ips ≡ none

-- Of a method: it takes the rule out, or fails.
remove_gone :
    (ip k : String) (s : MemoryStore) (b : Bool)
    → (remove_blocked_ip ip s).1 ≡ ok b
    → lookup k (remove_blocked_ip ip s).0.blocked_ips
      ≡ (if trim_space ip == k then none else lookup k s.blocked_ips)
unfolding remove_blocked_ip
remove_gone ip k s b h = ground (arith, lookup-erase k (trim_space ip) s.blocked_ips)

module _ (normalize : String → Option String) (type : String) (c : Claims) where
  step_lem :
      (e : Env) (raw : String) (acc acc' : Removed) (s : MemoryStore)
      → let o = remove_step normalize remove_blocked_ip type c e raw acc s in
        o.1 ≡ some acc'
        → (total acc' ≡ suc (total acc))
          × IsGone normalize o.0 raw
          × ((k : String) → lookup k s.blocked_ips ≡ none → lookup k o.0.blocked_ips ≡ none)
  step_lem e raw acc acc' s h = elim (Option-cases (normalize raw)) [
    | inl bad ↦
        let h' = rw bad at h in
        rw bad (
          counted h' (omega (arith, length-snoc acc.invalid (trim_space raw))),
          (λ target at. absurd (cc)),
          λ k absent. absent,
        )
    | inr (target, good) ↦ elim (Result-cases (remove_blocked_ip target s).1) [
      | inl (x, failed) ↦ absurd (cc (rw (good, failed) at h))
      | inr (b, answered) ↦
          let gone : (k : String)
              → lookup k (remove_blocked_ip target s).0.blocked_ips
                ≡ (if trim_space target == k then none else lookup k s.blocked_ips) =
            λ k. remove_gone target k s b answered in
          let self : lookup (trim_space target) (remove_blocked_ip target s).0.blocked_ips ≡ none =
            gone (trim_space target) ∙ rw (==_refl (trim_space target)) refl in
          elim (Bool-cases b) [
            | inl found ↦
                let h' = rw (good, answered, found) at h in
                rw (good, answered, found)
                  (
                    counted h' (omega (arith, length-snoc acc.removed target)),
                    (λ other at.
                        rw (event_keeps e _ (remove_blocked_ip target s).0)
                          (rw (← same_target at) self)),
                    λ k absent.
                        rw (event_keeps e _ (remove_blocked_ip target s).0)
                          (rw (gone k, absent) (ground arith)),
                  )
            | inr missing ↦
                let h' = rw (good, answered, missing) at h in
                rw (good, answered, missing)
                  (
                    counted h' (omega (arith, length-snoc acc.not_found target)),
                    (λ other at. rw (← same_target at) self),
                    λ k absent. rw (gone k, absent) (ground arith),
                  )
          ]
    ]
  ]
    where
      counted :
          {r : Removed}
          → some r ≡ some acc'
          → total r ≡ suc (total acc)
          → total acc' ≡ suc (total acc)
      counted p q = ground arith

      same_target : {a b : String} → some a ≡ some b → a ≡ b
      same_target p = ground arith

  remove_targets-cons :
      (e : Env) (raw : String) (raws : List String) (acc acc' : Removed) (s : MemoryStore)
      → let o = remove_step normalize remove_blocked_ip type c e raw acc s in
        o.1 ≡ some acc'
        → remove_targets normalize remove_blocked_ip type c e (raw ∷ raws) acc s
          ≡ remove_targets normalize remove_blocked_ip type c (skip 1 e) raws acc' o.0
  unfolding remove_targets
  remove_targets-cons e raw raws acc acc' s went = rw went refl

  remove_targets-failed :
      (e : Env) (raw : String) (raws : List String) (acc : Removed) (s : MemoryStore)
      → (remove_step normalize remove_blocked_ip type c e raw acc s).1 ≡ none
      → (remove_targets normalize remove_blocked_ip type c e (raw ∷ raws) acc s).1 ≡ none
  unfolding remove_targets
  remove_targets-failed e raw raws acc s failed = rw failed refl

  remove_targets-nil :
      (e : Env) (acc : Removed) (s : MemoryStore)
      → remove_targets normalize remove_blocked_ip type c e [] acc s ≡ (s, some acc)
  unfolding remove_targets
  remove_targets-nil e acc s = refl

  remove_targets_lem :
      (e : Env) (raws : List String) (acc r : Removed) (s : MemoryStore)
      → let o = remove_targets normalize remove_blocked_ip type c e raws acc s in
        o.1 ≡ some r
        → (total r ≡ total acc + length raws)
          × All (IsGone normalize o.0) raws
          × ((k : String) → lookup k s.blocked_ips ≡ none → lookup k o.0.blocked_ips ≡ none)
  remove_targets_lem e [] acc r s h =
      let h' = rw (remove_targets-nil e acc s) at h in
      rw (remove_targets-nil e acc s) (ground arith, tt, λ k absent. absent)
  remove_targets_lem e (raw ∷ raws) acc r s h =
      elim (Option-cases (remove_step normalize remove_blocked_ip type c e raw acc s).1) [
        | inl failed ↦ absurd (cc (rw (remove_targets-failed e raw raws acc s failed) at h))
        | inr (acc', went) ↦
            let s' = (remove_step normalize remove_blocked_ip type c e raw acc s).0 in
            let (one, gone, kept) = step_lem e raw acc acc' s went in
            let unrolled = remove_targets-cons e raw raws acc acc' s went in
            let (rest, all, keeps) =
              remove_targets_lem (skip 1 e) raws acc' r s' (rw unrolled at h) in
            (
              omega (arith, one, rest),
              (
                (λ target at. rw unrolled (keeps (trim_space target) (gone target at))),
                subst (λ (o : MemoryStore × Option Removed). All (IsGone normalize o.0) raws)
                    (sym unrolled) all,
              ),
              λ k absent. rw unrolled (keeps k (kept k absent)),
            )
      ]

-- The bulk removal of blocked addresses. When handleBOUnblockIPBulk replies with 200 to a list of
-- targets, the three lists of its reply have together as many entries as the request has targets,
-- no rule is left in the denylist under any target that is an address or a network, and none has
-- come in under any other key.
pub unblock_ip_bulk-IsGone :
    (net : NetSyntax) (text : NetText) (e : Env) (c : Claims) (targets : List String)
    (s : MemoryStore) (removed not_found invalid : List String)
    → let o =
        handle_bo_unblock_ip_bulk net text e c
          (some (record { targets = targets; all = false }))
          s in
      o.1 ≡ write_json 200 (removal_body removed not_found invalid)
      → (length removed + length not_found + length invalid ≡ length targets)
        × All (IsGone (normalize_block_target net text) o.0) targets
        × ((k : String) → lookup k s.blocked_ips ≡ none → lookup k o.0.blocked_ips ≡ none)
unfolding handle_bo_unblock_ip_bulk
unblock_ip_bulk-IsGone net text e c targets s removed not_found invalid h =
    let start : Removed = record { removed = []; not_found = []; invalid = [] } in
    let normalize = normalize_block_target net text in
    elim (Option-cases
      (remove_targets normalize remove_blocked_ip "IP_UNBLOCKED" c (skip 1 e) targets start s).1) [
        | inl failed ↦ absurd (cc (rw failed at h))
        | inr (r, went) ↦
            let (sum, gone, kept) =
              remove_targets_lem normalize "IP_UNBLOCKED" c (skip 1 e) targets start r s went in
            let h' = rw went at h in rw went (ground (arith, sum), gone, kept)
      ]
