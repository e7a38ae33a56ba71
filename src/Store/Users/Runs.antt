-- ===== src/Store/Users/Runs.antt =====
-- internal/store/memory.go: sequences of the calls that write users.
use mathlib.Core.Path.{subst}
use visto_easy.Prelude.{
  some, ◌≡◌, ◌≢◌, refl, sym, ap, ◌∙◌, inl, inr, Bool, ◌||◌, String, List, [], ◌∷◌, none, ◌==◌,
  Option-cases, trim_space, if-cases,
}
use visto_easy.Prelude.Clock.{Env}
use visto_easy.Prelude.Dict.{lookup}
use visto_easy.Model.{Utente}
use visto_easy.Store.State.{MemoryStore, Outcome, Result, ok, on_result}
use visto_easy.Store.Users.{
  set_user_verification_state, set_user_totp_secret, set_user_totp_enabled, update_user_password,
  email_key, create_user, get_user_by_email, get_user_by_id, new_memory_store,
}
use visto_easy.Store.Users.Index.{
  IsIndexed, create_user-IsIndexed, set_user-IsIndexed, new_memory_store-IsIndexed,
}

-- The methods of the interface that write users, with their arguments.
pub data UserCall : Type 0 where
  creates : Utente → UserCall
  verifies : String → Bool → Bool → UserCall
  sets_secret : String → String → UserCall
  sets_enabled : String → Bool → UserCall
  sets_password : String → String → UserCall

unfoldable pub user_call : Env → UserCall → MemoryStore → MemoryStore
user_call e (UserCall.creates u) s = (create_user e u s).0
user_call e (UserCall.verifies user attivo verificata) s =
    (set_user_verification_state e user attivo verificata s).0
user_call e (UserCall.sets_secret user secret) s = (set_user_totp_secret e user secret s).0
user_call e (UserCall.sets_enabled user enabled) s = (set_user_totp_enabled e user enabled s).0
user_call e (UserCall.sets_password user hash) s = (update_user_password e user hash s).0

unfoldable pub run_users : List (Env × UserCall) → MemoryStore → MemoryStore
unfolding user_call
run_users [] s = s
run_users ((e, c) ∷ cs) s = run_users cs (user_call e c s)

-- The identifier that each creation draws is in no use then.
abbrev pub AreNew : List (Env × UserCall) → MemoryStore → Type 0
AreNew [] s = Unit
AreNew ((e, c) ∷ cs) s = (lookup (e.uuid 0) s.users ≡ none) × AreNew cs (user_call e c s)

user_call-IsIndexed :
    (e : Env) (c : UserCall) (s : MemoryStore)
    → lookup (e.uuid 0) s.users ≡ none
    → IsIndexed s
    → IsIndexed (user_call e c s)
unfolding user_call set_user_verification_state set_user_totp_secret set_user_totp_enabled
    update_user_password
user_call-IsIndexed e (UserCall.creates u) s new h = create_user-IsIndexed e u s new h
user_call-IsIndexed e (UserCall.verifies user attivo verificata) s new h =
    set_user-IsIndexed user _ s (λ _. refl) (λ _. refl) h
user_call-IsIndexed e (UserCall.sets_secret user secret) s new h =
    set_user-IsIndexed user _ s (λ _. refl) (λ _. refl) h
user_call-IsIndexed e (UserCall.sets_enabled user enabled) s new h =
    set_user-IsIndexed user _ s (λ _. refl) (λ _. refl) h
user_call-IsIndexed e (UserCall.sets_password user hash) s new h =
    if-cases (λ (o : Outcome Bool). IsIndexed o.0) (trim_space user == "" || trim_space hash == "")
      (λ _. h) λ _. set_user-IsIndexed user _ s (λ _. refl) (λ _. refl) h

run_users-keeps :
    (cs : List (Env × UserCall)) (s : MemoryStore)
    → AreNew cs s
    → IsIndexed s
    → IsIndexed (run_users cs s)
unfolding run_users
run_users-keeps [] s new h = h
run_users-keeps ((e, c) ∷ cs) s (n, new) h =
    run_users-keeps cs (user_call e c s) new (user_call-IsIndexed e c s n h)

found_by_id :
    (id : String) (s : MemoryStore) (u : Utente)
    → lookup id s.users ≡ some u
    → get_user_by_id id s ≡ ok u
unfolding get_user_by_id
found_by_id id s u at = rw at refl

-- The user that the index leads to.
found_by_email :
    (email : String) (s : MemoryStore) (u : Utente)
    → IsIndexed s
    → get_user_by_email email s ≡ ok u
    → (u.email ≡ email_key email) × (get_user_by_id u.id s ≡ ok u)
unfolding get_user_by_email
found_by_email email s u h found = elim (Option-cases (lookup (email_key email) s.by_email)) [
  | inl absent ↦ absurd (cc (rw absent at found))
  | inr (id, key) ↦
      let (v, at, named) = h.present (email_key email) id key in
      let same : ok v ≡ ok u = rw (key, at) at found in
      let one : v ≡ u = ap (λ (r : Result Utente). on_result r (λ _. v) λ x. x) same in
      (
        sym (ap (λ (x : Utente). x.email) one) ∙ named,
        subst (λ (x : Utente). get_user_by_id x.id s ≡ ok x) one
            (found_by_id v.id s v (ap (λ i. lookup i s.users) (h.keyed id v at) ∙ at)),
      )
]

-- Users and their addresses agree from the start on. In the store that NewMemoryStore makes with
-- three different identifiers, after any calls of CreateUser, SetUserVerificationState,
-- SetUserTOTPSecret, SetUserTOTPEnabled and UpdateUserPassword, where the identifiers that are
-- drawn are in no use, users and index agree, in that every user stands under its identifier and
-- the index leads from addresses to users exactly; so a user that GetUserByEmail gives has the
-- address that was asked for, and is what GetUserByID gives for its identifier.
pub run_users-IsIndexed :
    (e : Env) (cs : List (Env × UserCall)) (email : String) (u : Utente)
    → e.uuid 0 ≢ e.uuid 1
    → e.uuid 0 ≢ e.uuid 2
    → e.uuid 1 ≢ e.uuid 2
    → AreNew cs (new_memory_store e)
    → get_user_by_email email (run_users cs (new_memory_store e)) ≡ ok u
    → IsIndexed (run_users cs (new_memory_store e))
      × (u.email ≡ email_key email)
      × (get_user_by_id u.id (run_users cs (new_memory_store e)) ≡ ok u)
run_users-IsIndexed e cs email u p q r new found =
    let h = run_users-keeps cs (new_memory_store e) new (new_memory_store-IsIndexed e p q r) in
    let (named, same) = found_by_email email (run_users cs (new_memory_store e)) u h found in
    (h, named, same)
