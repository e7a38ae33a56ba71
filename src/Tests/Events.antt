-- ===== src/Tests/Events.antt =====
-- The statistics of security events, at concrete inputs.
use visto_easy.Prelude.{ℕ, ◌*◌, ◌≡◌, refl, ◌||◌, String, [], ◌∷◌, length, ltb, ◌==◌}
use visto_easy.Prelude.Int.{pos}
use visto_easy.Prelude.Clock.{minute}
use visto_easy.Prelude.Dict.{Dict}
use visto_easy.Prelude.Compare.{text_ltb}
use visto_easy.Model.{SecurityEvent}
use visto_easy.Store.State.{MemoryStore, empty_store}
use visto_easy.Http.Reply.{security_event}
use visto_easy.Http.Ranking.{top_map_entries, ranked, outranks}
use visto_easy.Http.Events.{
  SecurityQuery, filter_security_events, minutes_before, reaches, handle_bo_security_events_stats,
}
use visto_easy.Http.Events.Counts.{
  tally, counted, is_recent_failure, is_recent_lock, has_ip, has_email, stats_lem,
}
use visto_easy.Tests.Data.{at}

abbrev counts : Dict ℕ
counts = ("b", 2) ∷ ("a", 2) ∷ ("c", 7) ∷ []

top_two : top_map_entries counts 2 ≡ (("c", 7) ∷ ("a", 2) ∷ [])
unfolding top_map_entries ranked outranks text_ltb
top_two = refl

abbrev failure : SecurityEvent
failure = record (security_event "LOGIN_FAILED" "invalid_credentials") {
  id = "f";
  ip = "10.0.0.1";
  creato_il = 100 * minute;
}

abbrev watched : MemoryStore
watched = record empty_store {
  security_events = record failure { creato_il = 1 } ∷ failure ∷ failure ∷ [];
}

abbrev every : SecurityQuery
every = record { type = ""; outcome = ""; q = ""; from = 0; to = 0 }

stats_lem_example :
    let o =
      handle_bo_security_events_stats (at (101 * minute) "e") (pos 15) (pos 2) every watched in
    let evts = filter_security_events every watched in
    let start = minutes_before (101 * minute) o.window_minutes in
    let failed = tally (is_recent_failure start) evts in
    let locked = tally (is_recent_lock start) evts in
    (o.total ≡ length evts)
    × ((k : String) → counted k o.by_type ≡ tally (λ v. v.type == k) evts)
    × ((k : String) → counted k o.by_outcome ≡ tally (λ v. v.outcome == k) evts)
    × (o.recent_failed_logins ≡ failed)
    × (o.recent_locked_logins ≡ locked)
    × (o.high_risk_detected ≡ (reaches failed (pos 2) || ltb 0 locked))
    × ((ips : Dict ℕ) × (o.top_failed_ips ≡ top_map_entries ips 5)
        × ((k : String) → counted k ips ≡ tally (has_ip start k) evts))
    × (emails : Dict ℕ) × (o.top_failed_emails ≡ top_map_entries emails 5)
    × ((k : String) → counted k emails ≡ tally (has_email start k) evts)
stats_lem_example = stats_lem (at (101 * minute) "e") (pos 15) (pos 2) every watched
