-- ===== src/Store/Sessions/OneTime.antt =====
-- The branches of ConsumePasswordResetToken of internal/store/memory.go.
use visto_easy.Prelude.{
  ◌≡◌, refl, true, false, inl, inr, ◌||◌, String, some, arith, Bool-cases, Option-cases, trim_space,
}
use visto_easy.Prelude.Clock.{Env, after}
use visto_easy.Prelude.Dict.{lookup}
use visto_easy.Model.{PasswordResetToken}
use visto_easy.Store.State.{MemoryStore, ok, err, not_found}
use visto_easy.Store.Sessions.{
  put_token, drop_token, use_token, is_used, consume_password_reset_token,
}

pub consume_live :
    (e : Env) (token : String) (s : MemoryStore) (r : PasswordResetToken)
    → lookup (trim_space token) s.password_reset_tokens ≡ some r
    → (is_used r || after (e.now 0) r.expires_at) ≡ false
    → consume_password_reset_token e token s
      ≡ (put_token (trim_space token) (use_token (e.now 0) r) s, ok (use_token (e.now 0) r))
unfolding consume_password_reset_token
consume_live e token s r found live = rw found (rw live refl)

pub consume_used :
    (e : Env) (token : String) (s : MemoryStore) (r : PasswordResetToken)
    → lookup (trim_space token) s.password_reset_tokens ≡ some r
    → is_used r ≡ true
    → consume_password_reset_token e token s ≡ (drop_token (trim_space token) s, err not_found)
unfolding consume_password_reset_token
consume_used e token s r found used = rw found (rw used refl)

-- A call that succeeds found a token in the store that was unused and had not ended.
pub consume-ok :
    (e : Env) (token : String) (s : MemoryStore) (t : PasswordResetToken)
    → (consume_password_reset_token e token s).1 ≡ ok t
    → (r : PasswordResetToken) × (lookup (trim_space token) s.password_reset_tokens ≡ some r)
      × ((is_used r || after (e.now 0) r.expires_at) ≡ false)
      × (use_token (e.now 0) r ≡ t)
unfolding consume_password_reset_token
consume-ok e token s t h = elim (Option-cases (lookup (trim_space token) s.password_reset_tokens)) [
  | inl absent ↦ absurd (ground arith)
  | inr (r, found) ↦ elim (Bool-cases (is_used r || after (e.now 0) r.expires_at)) [
    | inl dead ↦ absurd (ground arith)
    | inr live ↦ (r, found, live, ground arith)
  ]
]
