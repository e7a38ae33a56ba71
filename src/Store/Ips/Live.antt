-- ===== src/Store/Ips/Live.antt =====
-- What ListBlockedIPs and ListAllowedIPs of internal/store/memory.go return: entries of the map
-- that have not ended.
use mathlib.Core.List.{Memᴰ}
use visto_easy.Prelude.{◌≡◌, false, inl, inr, [], ◌∷◌, Option, Bool-cases}
use visto_easy.Prelude.Clock.{Time, Env, after_opt}
use visto_easy.Prelude.Dict.{Dict, values}
use visto_easy.Model.{BlockedIp}
use visto_easy.Store.State.{MemoryStore}
use visto_easy.Store.Order.{Memᴰ-latest_first}
use visto_easy.Store.Ips.{purge, list_blocked_ips}

module _ {V : Type 0} (expiry : V → Option Time) where
  Memᴰ-purge :
      {v : V} (now : Time) (m : Dict V)
      → Memᴰ v (values (purge expiry now m))
      → (after_opt now (expiry v) ≡ false) × Memᴰ v (values m)
  unfolding purge values
  Memᴰ-purge now [] n = elim n [ ]
  Memᴰ-purge {v} now ((ip, w) ∷ m) n = elim (Bool-cases (after_opt now (expiry w))) [
    | inl ended ↦ let (h, k) = Memᴰ-purge now m (rw ended at n) in (h, Memᴰ.tail k)
    | inr live ↦ at_head live (rw live at n) (Memᴰ-purge now m)
  ]
    where
      at_head :
          after_opt now (expiry w) ≡ false
          → Memᴰ v (w ∷ values (purge expiry now m))
          → (Memᴰ v (values (purge expiry now m))
              → (after_opt now (expiry v) ≡ false) × Memᴰ v (values m))
          → (after_opt now (expiry v) ≡ false) × Memᴰ v (w ∷ values m)
      at_head live (Memᴰ.head e) f = (rw e live, Memᴰ.head e)
      at_head live (Memᴰ.tail k) f = let (h, n) = f k in (h, Memᴰ.tail n)

pub Memᴰ-list_blocked_ips :
    {b : BlockedIp} (e : Env) (s : MemoryStore)
    → Memᴰ b (list_blocked_ips e s).1
    → (after_opt (e.now 0) b.expires_at ≡ false) × Memᴰ b (values s.blocked_ips)
unfolding list_blocked_ips
Memᴰ-list_blocked_ips e s m =
    Memᴰ-purge (λ (b : BlockedIp). b.expires_at) (e.now 0) s.blocked_ips
      (Memᴰ-latest_first (λ (b : BlockedIp). b.blocked_at) _ m)
