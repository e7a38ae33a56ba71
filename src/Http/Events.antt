-- ===== src/Http/Events.antt =====
-- internal/httpapi/server.go: the handlers that read the logs of security and audit events. The
-- texts in CSV and the streams of the alert are left out.
pub mod Counts
use visto_easy.Prelude.{
  ℕ, suc, ◌+◌, ◌*◌, ◌-◌, Bool, true, not, ◌&&◌, ◌||◌, String, List, [], ◌∷◌, Option, none, some,
  ◌==◌, ◌⊎◌, inl, inr, if◌then◌else◌, on_some, trim_space, to_lower, ltb, leb, length,
}
use Prim.Native.Nat.{◌%◌, ◌^◌}
use visto_easy.Prelude.Int.{ℤ, pos, negsuc}
use visto_easy.Prelude.Clock.{Time, Env, is_zero, after, minute}
use visto_easy.Prelude.Compare.{contains, join_bars}
use visto_easy.Prelude.Dict.{Dict, lookup, insert}
use visto_easy.Model.{SecurityEvent, AuditEvent}
use visto_easy.Store.State.{MemoryStore, Result, on_result}
use visto_easy.Store.Order.{latest_first}
use visto_easy.Store.Events.{
  list_security_events, list_audit_events, get_security_event_by_id, get_audit_event_by_id,
}
use visto_easy.Http.Reply.{Reply, write_err}
use visto_easy.Http.Pagination.{page_of, positive_or}
use visto_easy.Http.Ranking.{top_map_entries}

-- The parameters of the query; the times are those that parseOptionalTime reads, 0 for none.
pub record SecurityQuery : Type 0 where
  pub type : String
  pub outcome : String
  pub q : String
  pub from : Time
  pub to : Time

pub record AuditQuery : Type 0 where
  pub action : String
  pub resource : String
  pub actor_id : String
  pub q : String
  pub from : Time
  pub to : Time

-- `param != "" && value != param`
abbrev differs : String → String → Bool
differs param value = not (param == "") && not (value == param)

-- The two tests of the time.
abbrev is_outside : Time → Time → Time → Bool
is_outside from to t = not (is_zero from) && ltb t from || not (is_zero to) && after t to

-- The test of the search for a text in some fields.
abbrev lacks : String → List String → Bool
lacks q fields = not (q == "") && not (contains (to_lower (join_bars fields)) q)

-- Whether the loop skips an event.
unfoldable skips_security_event : SecurityQuery → SecurityEvent → Bool
skips_security_event query evt =
    differs (to_lower (trim_space query.type)) (to_lower evt.type)
    || differs (to_lower (trim_space query.outcome)) (to_lower evt.outcome)
    || is_outside query.from query.to evt.creato_il
    || lacks (to_lower (trim_space query.q))
        (evt.email ∷ evt.user_id ∷ evt.ip ∷ evt.user_agent ∷ evt.type ∷ evt.outcome ∷ [])

unfoldable skips_audit_event : AuditQuery → AuditEvent → Bool
skips_audit_event query evt =
    differs (to_lower (trim_space query.action)) (to_lower evt.action)
    || differs (to_lower (trim_space query.resource)) (to_lower evt.resource)
    || differs (trim_space query.actor_id) evt.actor_id
    || is_outside query.from query.to evt.creato_il
    || lacks (to_lower (trim_space query.q))
        (evt.action ∷ evt.resource ∷ evt.resource_id ∷ evt.actor_id ∷ evt.actor_role ∷ evt.ip ∷ [])

-- What a loop collects that skips some elements.
unfoldable unskipped : {A : Type 0} → (A → Bool) → List A → List A
unskipped skips [] = []
unskipped skips (x ∷ xs) = let rest = unskipped skips xs in if skips x then rest else x ∷ rest

unfoldable pub filter_security_events : SecurityQuery → MemoryStore → List SecurityEvent
unfolding unskipped skips_security_event
filter_security_events query s =
    latest_first (λ (v : SecurityEvent). v.creato_il)
      (unskipped (skips_security_event query) (list_security_events s))

unfoldable pub filter_audit_events : AuditQuery → MemoryStore → List AuditEvent
unfolding unskipped skips_audit_event
filter_audit_events query s =
    latest_first (λ (v : AuditEvent). v.creato_il)
      (unskipped (skips_audit_event query) (list_audit_events s))

-- The reply of a list: the items of the page, their number, and the total.
pub record Page (A : Type 0) : Type 0 where
  pub items : List A
  pub count : ℕ
  pub total : ℕ
  pub page : ℕ
  pub page_size : ℕ

-- None where the slice panics.
abbrev paged : {A : Type 0} → List A → ℕ → ℕ → Option (Page A)
paged filtered page size = on_some (page_of filtered page size) none λ items. some (record {
  items = items;
  count = length items;
  total = length filtered;
  page = page;
  page_size = size;
})

unfoldable pub handle_bo_security_events :
    SecurityQuery → ℕ → ℕ → MemoryStore → Option (Page SecurityEvent)
handle_bo_security_events query page size s = paged (filter_security_events query s) page size

unfoldable pub handle_bo_audit_events : AuditQuery → ℕ → ℕ → MemoryStore → Option (Page AuditEvent)
handle_bo_audit_events query page size s = paged (filter_audit_events query s) page size

-- What the handlers of one event reply: an error, or the event with 200.
abbrev found_event :
    {A : Type 0} → String → (String → MemoryStore → Result A) → String → MemoryStore → Reply ⊎ A
found_event absent get id s =
    if trim_space id == ""
    then inl (write_err 400 "id evento non valido")
    else on_result (get (trim_space id) s) (λ _. inl (write_err 404 absent)) λ evt. inr evt

unfoldable pub handle_bo_get_security_event : String → MemoryStore → Reply ⊎ SecurityEvent
handle_bo_get_security_event id s =
    found_event "evento sicurezza non trovato" get_security_event_by_id id s

unfoldable pub handle_bo_get_audit_event : String → MemoryStore → Reply ⊎ AuditEvent
handle_bo_get_audit_event id s = found_event "evento audit non trovato" get_audit_event_by_id id s

-- `items[key]++`
abbrev pub add_one : String → Dict ℕ → Dict ℕ
add_one key m = insert key (on_some (lookup key m) 1 λ n. n + 1) m

-- The counters of the loop.
pub record Counters : Type 0 where
  pub by_type : Dict ℕ
  pub by_outcome : Dict ℕ
  pub failed_by_ip : Dict ℕ
  pub failed_by_email : Dict ℕ
  pub failed : ℕ
  pub locked : ℕ

abbrev pub no_counts : Counters
no_counts = record {
  by_type = [];
  by_outcome = [];
  failed_by_ip = [];
  failed_by_email = [];
  failed = 0;
  locked = 0;
}

-- The body of the loop, for the start of the window.
unfoldable pub count_event : Time → Counters → SecurityEvent → Counters
count_event start c evt =
    let every : Counters = record c {
      by_type = add_one evt.type c.by_type;
      by_outcome = add_one evt.outcome c.by_outcome;
    } in
    if ltb evt.creato_il start
    then every
    else if evt.type == "LOGIN_FAILED"
    then record every {
      failed = c.failed + 1;
      failed_by_ip =
          if not (trim_space evt.ip == "") then add_one evt.ip c.failed_by_ip else c.failed_by_ip;
      failed_by_email =
          if not (trim_space evt.email == "")
          then add_one evt.email c.failed_by_email
          else c.failed_by_email;
    }
    else if evt.type == "LOGIN_LOCKED"
    then record every { locked = c.locked + 1 }
    else every

unfoldable pub count_events : Time → Counters → List SecurityEvent → Counters
unfolding count_event
count_events start c [] = c
count_events start c (evt ∷ evts) = count_events start (count_event start c evt) evts

-- `now.Add(-time.Duration(n) * time.Minute)`, the product an int64 that wraps around.
abbrev pub minutes_before : Time → ℕ → Time
minutes_before now n =
    let d = n * minute % 2 ^ 64 in if leb d (2 ^ 63) then now - d else now + (2 ^ 64 - d)

-- `recentFailed >= threshold`
abbrev pub reaches : ℕ → ℤ → Bool
reaches n (pos m) = leb m n
reaches n (negsuc m) = true

pub record SecurityStats : Type 0 where
  pub total : ℕ
  pub window_minutes : ℕ
  pub recent_failed_logins : ℕ
  pub recent_locked_logins : ℕ
  pub by_type : Dict ℕ
  pub by_outcome : Dict ℕ
  pub top_failed_ips : Dict ℕ
  pub top_failed_emails : Dict ℕ
  pub high_risk_detected : Bool

-- The reply, for the two settings `SECURITY_ALERT_WINDOW_MINUTES` and
-- `SECURITY_ALERT_FAILED_THRESHOLD`.
unfoldable pub handle_bo_security_events_stats :
    Env → ℤ → ℤ → SecurityQuery → MemoryStore → SecurityStats
unfolding count_events
handle_bo_security_events_stats e window threshold query s =
    let items = filter_security_events query s in
    let minutes = positive_or (some window) 15 in
    let c = count_events (minutes_before (e.now 0) minutes) no_counts items in
    record {
      total = length items;
      window_minutes = minutes;
      recent_failed_logins = c.failed;
      recent_locked_logins = c.locked;
      by_type = c.by_type;
      by_outcome = c.by_outcome;
      top_failed_ips = top_map_entries c.failed_by_ip 5;
      top_failed_emails = top_map_entries c.failed_by_email 5;
      high_risk_detected = reaches c.failed threshold || ltb 0 c.locked;
    }
