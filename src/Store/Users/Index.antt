-- ===== src/Store/Users/Index.antt =====
-- The index of e-mail addresses of internal/store/memory.go.
use visto_easy.Prelude.{
  refl, false, to_lower, String-discrete, ◌≢◌, ◌≡◌, ap, ◌∙◌, Bool, inl, inr, String, none, some,
  arith, Bool-cases, ◌==◌, eq_of_==, on_some-cases, trim_space,
}
use visto_easy.Prelude.Clock.{Env}
use visto_easy.Prelude.Dict.{lookup, insert, lookup-insert}
use visto_easy.Model.{Utente, operatore, supervisore, admin}
use visto_easy.Store.State.{MemoryStore, empty_store, Outcome}
use visto_easy.Store.Users.{
  seed_users, seed_backoffice_users, new_memory_store, backoffice_user, put_user, add_user,
  email_key, registered, create_user, set_user,
}

-- Users and index agree: a user stands under its identifier, the index leads from its address to
-- it, and from no address elsewhere.
pub record IsIndexed (s : MemoryStore) : Type 0 where
  pub keyed : (id : String) (u : Utente) → lookup id s.users ≡ some u → u.id ≡ id
  pub indexed :
      (id : String) (u : Utente) → lookup id s.users ≡ some u → lookup u.email s.by_email ≡ some id
  pub present :
      (key id : String)
      → lookup key s.by_email ≡ some id
      → (u : Utente) × (lookup id s.users ≡ some u) × (u.email ≡ key)

-- A new user under a new identifier and a new address.
add_user-IsIndexed :
    (u : Utente) (s : MemoryStore)
    → lookup u.id s.users ≡ none
    → lookup u.email s.by_email ≡ none
    → IsIndexed s
    → IsIndexed (add_user u.email u s)
add_user-IsIndexed u s new free h = record {
  keyed = keyed';
  indexed = indexed';
  present = present';
}
  where
    keyed' : (id : String) (v : Utente) → lookup id (insert u.id u s.users) ≡ some v → v.id ≡ id
    keyed' id v at = ground (arith, lookup-insert id u.id u s.users, h.keyed id v)

    indexed' :
        (id : String) (v : Utente)
        → lookup id (insert u.id u s.users) ≡ some v
        → lookup v.email (insert u.email u.id s.by_email) ≡ some id
    indexed' id v at = ground (
      arith,
      lookup-insert id u.id u s.users,
      h.indexed id v,
      lookup-insert v.email u.email u.id s.by_email,
    )

    present' :
        (key id : String)
        → lookup key (insert u.email u.id s.by_email) ≡ some id
        → (v : Utente) × (lookup id (insert u.id u s.users) ≡ some v) × (v.email ≡ key)
    present' key id at = elim (Bool-cases (u.email == key)) [
      | inl same ↦ (
        u,
        ground (arith, lookup-insert key u.email u.id s.by_email, lookup-insert id u.id u s.users),
        eq_of_== u.email key same,
      )
      | inr other ↦
          let (v, found, e) =
            h.present key id (ground (arith, lookup-insert key u.email u.id s.by_email)) in
          (v, ground (arith, lookup-insert id u.id u s.users), e)
    ]

-- A creation keeps the index, whether it succeeds or not.
pub create_user-IsIndexed :
    (e : Env) (u : Utente) (s : MemoryStore)
    → lookup (e.uuid 0) s.users ≡ none
    → IsIndexed s
    → IsIndexed (create_user e u s).0
unfolding create_user
create_user-IsIndexed e u s new h =
    on_some-cases (λ (o : Outcome Utente). IsIndexed o.0) (lookup (email_key u.email) s.by_email)
      (λ free. add_user-IsIndexed (registered (e.uuid 0) (e.now 0) u) s new free h) λ _ _. h

-- The setters keep the index: they change neither identifier nor address.
pub set_user-IsIndexed :
    (user : String) (f : Utente → Utente) (s : MemoryStore)
    → ((u : Utente) → (f u).id ≡ u.id)
    → ((u : Utente) → (f u).email ≡ u.email)
    → IsIndexed s
    → IsIndexed (set_user user f s).0
set_user-IsIndexed user f s same_id same_email h =
    on_some-cases (λ (o : Outcome Bool). IsIndexed o.0) (lookup (trim_space user) s.users) (λ _. h)
      changed
  where
    k : String
    k = trim_space user

    seen :
        (u : Utente)
        → lookup k s.users ≡ some u
        → (key id : String) (v : Utente) → lookup id s.users ≡ some v
        → v.email ≡ key
        → (w : Utente) × (lookup id (insert k (f u) s.users) ≡ some w) × (w.email ≡ key)
    seen u at key id v found e = elim (Bool-cases (k == id)) [
      | inl same ↦
          let one : u ≡ v = ground arith in
          (
            f u,
            ground (arith, lookup-insert id k (f u) s.users),
            same_email u ∙ (ap (λ (x : Utente). x.email) one ∙ e),
          )
      | inr other ↦ (v, ground (arith, lookup-insert id k (f u) s.users), e)
    ]

    changed : (u : Utente) → lookup k s.users ≡ some u → IsIndexed (put_user k (f u) s)
    changed u at = record {
      keyed = λ id v found.
          ground (arith, lookup-insert id k (f u) s.users, h.keyed id v, h.keyed k u at, same_id u);
      indexed = λ id v found.
          ground (
            arith,
            lookup-insert id k (f u) s.users,
            h.indexed id v,
            h.indexed k u at,
            same_email u,
          );
      present = λ key id i. let (v, found, e) = h.present key id i in seen u at key id v found e;
    }

empty-IsIndexed : IsIndexed empty_store
unfolding lookup
empty-IsIndexed = record {
  keyed = λ id u found. cc;
  indexed = λ id u found. cc;
  present = λ key id found. cc;
}

differ : {i j : String} → i ≢ j → (i == j) ≡ false
differ {i} {j} n = elim (Bool-cases (i == j)) [
  | inl same ↦ absurd (n (eq_of_== i j same))
  | inr other ↦ other
]

-- The store begins with users and index that agree, when its three identifiers differ.
pub new_memory_store-IsIndexed :
    (e : Env)
    → e.uuid 0 ≢ e.uuid 1
    → e.uuid 0 ≢ e.uuid 2
    → e.uuid 1 ≢ e.uuid 2
    → IsIndexed (new_memory_store e)
unfolding new_memory_store seed_backoffice_users seed_users lookup insert to_lower String-discrete
new_memory_store-IsIndexed e p q r =
    let now = e.now 0 in
    let a =
      backoffice_user (e.uuid 0) "operatore@vistoeasy.local" "Mario" "Operatore" operatore now in
    let b =
      backoffice_user (e.uuid 1) "supervisore@vistoeasy.local" "Luca" "Supervisore" supervisore
        now in
    let c = backoffice_user (e.uuid 2) "admin@vistoeasy.local" "Anna" "Admin" admin now in
    let s1 = add_user a.email a empty_store in
    let s2 = add_user b.email b s1 in
    add_user-IsIndexed c s2 (rw (differ p, differ q, differ r) refl) refl (
      add_user-IsIndexed b s1 (rw (differ p) refl) refl
        (add_user-IsIndexed a empty_store refl refl empty-IsIndexed))
