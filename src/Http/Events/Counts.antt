-- ===== src/Http/Events/Counts.antt =====
-- internal/httpapi/server.go: the counts of the statistics of security events.
use visto_easy.Prelude.{
  String-discrete, ℕ, ◌+◌, Bool, false, not, ◌&&◌, ◌||◌, ◌≡◌, refl, inl, inr, String, List, [], ◌∷◌,
  none, Option, ◌∙◌, some, arith, Bool-cases, ◌==◌, eq_of_==, if◌then◌else◌, on_some, trim_space,
  ltb, length,
}
use visto_easy.Prelude.Clock.{Time, Env}
use visto_easy.Prelude.Dict.{Dict, lookup, lookup-insert}
use visto_easy.Model.{SecurityEvent}
use visto_easy.Prelude.Int.{ℤ}
use visto_easy.Store.State.{MemoryStore}
use visto_easy.Http.Pagination.{positive_or}
use visto_easy.Http.Ranking.{top_map_entries}
use visto_easy.Http.Events.{
  SecurityQuery, filter_security_events, minutes_before, reaches, handle_bo_security_events_stats,
  add_one, Counters, no_counts, count_event, count_events,
}

-- How many elements a test holds of.
abbrev pub tally : {A : Type 0} → (A → Bool) → List A → ℕ
tally p [] = 0
tally p (x ∷ xs) = (if p x then 1 else 0) + tally p xs

-- What a map of counts says of a key, 0 where it has none.
abbrev pub counted : String → Dict ℕ → ℕ
counted k m = on_some (lookup k m) 0 λ n. n

counted-add_one :
    (k key : String) (m : Dict ℕ)
    → counted k (add_one key m) ≡ (if key == k then 1 else 0) + counted k m
counted-add_one k key m =
    let n = on_some (lookup key m) 1 λ n. n + 1 in
    elim (Bool-cases (key == k)) [
      | inl same ↦
          let read : lookup k (add_one key m) ≡ some n = lookup-insert k key n m ∙ rw same refl in
          rw (read, same) (rw (eq_of_== key k same) (bumped (lookup k m)))
      | inr other ↦
          let read : lookup k (add_one key m) ≡ lookup k m =
            lookup-insert k key n m ∙ rw other refl in
          rw (read, other) (omega arith)
    ]
  where
    bumped : (o : Option ℕ) → on_some o 1 (λ i. i + 1) ≡ 1 + on_some o 0 (λ i. i)
    bumped none = omega arith
    bumped (some i) = omega arith

-- The two kinds of events that are counted within the window.
abbrev pub is_recent_failure : Time → SecurityEvent → Bool
is_recent_failure start v = not (ltb v.creato_il start) && v.type == "LOGIN_FAILED"

abbrev pub is_recent_lock : Time → SecurityEvent → Bool
is_recent_lock start v = not (ltb v.creato_il start) && v.type == "LOGIN_LOCKED"

abbrev pub has_ip : Time → String → SecurityEvent → Bool
has_ip start k v = is_recent_failure start v && (not (trim_space v.ip == "") && v.ip == k)

abbrev pub has_email : Time → String → SecurityEvent → Bool
has_email start k v = is_recent_failure start v && (not (trim_space v.email == "") && v.email == k)

-- The second counters are the first and the events of the list.
record Adds (start : Time) (c : Counters) (evts : List SecurityEvent) (d : Counters) : Type 0 where
  type : (k : String) → counted k d.by_type ≡ tally (λ v. v.type == k) evts + counted k c.by_type
  outcome :
      (k : String)
      → counted k d.by_outcome ≡ tally (λ v. v.outcome == k) evts + counted k c.by_outcome
  ip :
      (k : String)
      → counted k d.failed_by_ip ≡ tally (has_ip start k) evts + counted k c.failed_by_ip
  email :
      (k : String)
      → counted k d.failed_by_email ≡ tally (has_email start k) evts + counted k c.failed_by_email
  failed : d.failed ≡ tally (is_recent_failure start) evts + c.failed
  locked : d.locked ≡ tally (is_recent_lock start) evts + c.locked

failed-ne-locked : ("LOGIN_FAILED" == "LOGIN_LOCKED") ≡ false
unfolding String-discrete
failed-ne-locked = refl

one-Adds :
    (start : Time) (c : Counters) (v : SecurityEvent)
    → Adds start c (v ∷ []) (count_event start c v)
unfolding count_event
one-Adds start c v = record {
  type = λ k. ground (arith, counted-add_one k v.type c.by_type);
  outcome = λ k. ground (arith, counted-add_one k v.outcome c.by_outcome);
  ip = λ k. ground (arith, counted-add_one k v.ip c.failed_by_ip);
  email = λ k. ground (arith, counted-add_one k v.email c.failed_by_email);
  failed = ground arith;
  locked = ground (arith, failed-ne-locked);
}

count_events-Adds :
    (start : Time) (c : Counters) (evts : List SecurityEvent)
    → Adds start c evts (count_events start c evts)
unfolding count_events
count_events-Adds start c [] = record {
  type = λ k. omega arith;
  outcome = λ k. omega arith;
  ip = λ k. omega arith;
  email = λ k. omega arith;
  failed = omega arith;
  locked = omega arith;
}
count_events-Adds start c (v ∷ vs) =
    let one = one-Adds start c v in
    let rest = count_events-Adds start (count_event start c v) vs in
    record {
      type = λ k. omega (arith, one.type k, rest.type k);
      outcome = λ k. omega (arith, one.outcome k, rest.outcome k);
      ip = λ k. omega (arith, one.ip k, rest.ip k);
      email = λ k. omega (arith, one.email k, rest.email k);
      failed = omega (arith, one.failed, rest.failed);
      locked = omega (arith, one.locked, rest.locked);
    }

-- The statistics are exact. Of the events that pass the filters, the reply of
-- handleBOSecurityEventsStats has the number, and the number of each type and of each outcome; of
-- those since the start of the window, the number of failed and of locked logins, and the five
-- addresses and the five names at most that topMapEntries gives of the numbers of failed logins
-- from each address and for each name, blank ones left out; and it reports a high risk exactly
-- where the failed logins reach the threshold or there is a locked one.
pub stats_lem :
    (e : Env) (window threshold : ℤ) (query : SecurityQuery) (s : MemoryStore)
    → let o = handle_bo_security_events_stats e window threshold query s in
      let evts = filter_security_events query s in
      let start = minutes_before (e.now 0) o.window_minutes in
      let failed = tally (is_recent_failure start) evts in
      let locked = tally (is_recent_lock start) evts in
      (o.total ≡ length evts)
      × ((k : String) → counted k o.by_type ≡ tally (λ v. v.type == k) evts)
      × ((k : String) → counted k o.by_outcome ≡ tally (λ v. v.outcome == k) evts)
      × (o.recent_failed_logins ≡ failed)
      × (o.recent_locked_logins ≡ locked)
      × (o.high_risk_detected ≡ (reaches failed threshold || ltb 0 locked))
      × ((ips : Dict ℕ) × (o.top_failed_ips ≡ top_map_entries ips 5)
          × ((k : String) → counted k ips ≡ tally (has_ip start k) evts))
      × (emails : Dict ℕ) × (o.top_failed_emails ≡ top_map_entries emails 5)
      × ((k : String) → counted k emails ≡ tally (has_email start k) evts)
unfolding handle_bo_security_events_stats lookup
stats_lem e window threshold query s =
    let evts = filter_security_events query s in
    let start = minutes_before (e.now 0) (positive_or (some window) 15) in
    let c = count_events start no_counts evts in
    let a = count_events-Adds start no_counts evts in
    let failed : c.failed ≡ tally (is_recent_failure start) evts = omega (arith, a.failed) in
    let locked : c.locked ≡ tally (is_recent_lock start) evts = omega (arith, a.locked) in
    (
      refl,
      (λ k. omega (arith, a.type k)),
      (λ k. omega (arith, a.outcome k)),
      failed,
      locked,
      rw (failed, locked) refl,
      (c.failed_by_ip, refl, λ k. omega (arith, a.ip k)),
      c.failed_by_email,
      refl,
      λ k. omega (arith, a.email k),
    )
