-- ===== src/Store/State.antt =====
-- internal/store/memory.go: the state of MemoryStore and the errors of its methods. A method runs
-- under the store's mutex, so it is one function from a state to the next state and a result.
use visto_easy.Prelude.{ℕ, ◌≡◌, refl, ◌⊎◌, inl, inr, String, List, []}
use visto_easy.Prelude.Clock.{Time}
use visto_easy.Prelude.Dict.{Dict, insert}
use visto_easy.Model.{
  Utente, Pratica, Pagamento, RefreshSession, PasswordResetToken, BlockedIp, AllowedIp,
  SecurityEvent, AuditEvent,
}

-- `ErrNotFound`, `ErrAlreadyExists`, `ErrInvalidState`, `ErrForbiddenState`
pub data StoreError : Type 0 where
  not_found already_exists invalid_state forbidden_state : StoreError

-- The pair of a value and an `error`, of which one counts.
pub data Result {ℓ} (A : Type ℓ) : Type ℓ where
  ok : A → Result A
  err : StoreError → Result A

pub record MemoryStore : Type 0 where
  pub users : Dict Utente
  pub pratiche : Dict Pratica
  pub payments : Dict Pagamento
  pub webhooks : Dict Time
  pub refresh_sessions : Dict RefreshSession
  pub password_reset_tokens : Dict PasswordResetToken
  pub blocked_ips : Dict BlockedIp
  pub allowed_ips : Dict AllowedIp
  pub security_events : List SecurityEvent
  pub audit_events : List AuditEvent
  pub by_email : Dict String
  pub pratica_counter : ℕ

-- `v, err := …; if err != nil { … }`
abbrev pub on_result {ℓ κ} : {A : Type ℓ} {B : Type κ} → Result A → (StoreError → B) → (A → B) → B
on_result (ok a) f k = k a
on_result (err x) f k = f x

module _ {ℓ κ ι} {A : Type ℓ} {B : Type κ} (P : B → Type ι) where
  pub on_result-cases :
      {f : StoreError → B} {k : A → B} (r : Result A)
      → ((x : StoreError) → r ≡ err x → P (f x))
      → ((a : A) → r ≡ ok a → P (k a))
      → P (on_result r f k)
  on_result-cases (ok a) g h = h a refl
  on_result-cases (err x) g h = g x refl

pub Result-cases :
    {A : Type 0} (r : Result A) → ((x : StoreError) × (r ≡ err x)) ⊎ ((a : A) × (r ≡ ok a))
Result-cases (ok a) = inr (a, refl)
Result-cases (err x) = inl (x, refl)

-- What a method leaves: the store and the method's result.
abbrev pub Outcome : Type 0 → Type 0
Outcome A = MemoryStore × Result A

-- The store that `NewMemoryStore` makes, before its users are added.
abbrev pub empty_store : MemoryStore
empty_store = record {
  users = [];
  pratiche = [];
  payments = [];
  webhooks = [];
  refresh_sessions = [];
  password_reset_tokens = [];
  blocked_ips = [];
  allowed_ips = [];
  security_events = [];
  audit_events = [];
  by_email = [];
  pratica_counter = 0;
}

-- `s.pratiche[id] = p`
abbrev pub put_pratica : String → Pratica → MemoryStore → MemoryStore
put_pratica id p s = record s { pratiche = insert id p s.pratiche }
