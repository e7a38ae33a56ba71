-- ===== src/Http/Access/Chain.antt =====
-- internal/httpapi/middleware.go: the authentication and the test of roles, one after the other.
use Prim.Native.String.{slice}
use mathlib.Core.List.{Memᴰ}
use visto_easy.Prelude.{
  ◌≡◌, refl, ◌⊎◌, inl, inr, true, not, ◌||◌, String, List, [], ◌∷◌, Option, some, arith, Bool-cases,
  Option-cases, ◌==◌, eq_of_==, trim_space, to_lower,
}
use visto_easy.Model.{Role, role_name}
use visto_easy.Store.State.{MemoryStore}
use visto_easy.Http.Reply.{Claims}
use visto_easy.Http.Access.{Handler, after_space, auth_middleware, is_allowed, require_roles}

-- The caller's claims are those of an access token that the header carries after `bearer`, in any
-- case, and name one of the roles.
pub record IsAuthorised (parse : String → Option Claims) (roles : List Role) (header : String)
    (c : Claims) : Type 0 where
  pub token : String
  pub bearer : (slice (to_lower (trim_space header)) 0 7 == "bearer ") ≡ true
  pub carried : after_space (trim_space header) ≡ some token
  pub parsed : parse (trim_space token) ≡ some c
  pub access : c.type ≡ "access"
  pub role : Role
  pub listed : Memᴰ role roles
  pub named : role_name role ≡ c.role

is_allowed-listed :
    (roles : List Role) (name : String)
    → is_allowed roles name ≡ true
    → (r : Role) × Memᴰ r roles × (role_name r ≡ name)
unfolding is_allowed
is_allowed-listed [] name h = absurd (ground arith)
is_allowed-listed (r ∷ roles) name h = elim (Bool-cases (role_name r == name)) [
  | inl same ↦ (r, Memᴰ.head refl, eq_of_== (role_name r) name same)
  | inr other ↦
      let (q, m, eq) = is_allowed-listed roles name (rw other at h) in (q, Memᴰ.tail m, eq)
]

-- Nothing happens behind the two checks without the right. A handler behind authMiddleware and
-- requireRoles either runs, once and on the store as it is, with the claims of a valid access
-- token that the header carries and that names one of the roles; or it does not run, the store is
-- as it was, and the reply is 401 or 403.
pub auth_middleware-require_roles :
    (parse : String → Option Claims) (roles : List Role) (header : String) (next : Handler)
    (s : MemoryStore)
    → let o = auth_middleware parse header (require_roles roles next) s in
      ((c : Claims) × IsAuthorised parse roles header c × (o ≡ next (some c) s))
      ⊎ ((o.0 ≡ s) × ((o.1.status ≡ 401) ⊎ (o.1.status ≡ 403)))
unfolding auth_middleware require_roles
auth_middleware-require_roles parse roles header next s =
    let h = trim_space header in
    elim (Bool-cases (h == "" || not (slice (to_lower h) 0 7 == "bearer "))) [
      | inl missing ↦ inr (rw missing (refl, inl refl))
      | inr given ↦ elim (Option-cases (after_space h)) [
        | inl none_ ↦ inr (rw (given, none_) (refl, inl refl))
        | inr (token, carried) ↦ elim (Option-cases (parse (trim_space token))) [
          | inl bad ↦ inr (rw (given, carried, bad) (refl, inl refl))
          | inr (c, parsed) ↦ elim (Bool-cases (c.type == "access")) [
            | inr other ↦ inr (rw (given, carried, parsed, other) (refl, inl refl))
            | inl access ↦ elim (Bool-cases (is_allowed roles c.role)) [
              | inr foreign ↦ inr (rw (given, carried, parsed, access, foreign) (refl, inr refl))
              | inl allowed ↦
                  let (role, listed, named) = is_allowed-listed roles c.role allowed in
                  inl (
                    c,
                    record {
                      token = token;
                      bearer = ground arith;
                      carried = carried;
                      parsed = parsed;
                      access = eq_of_== c.type "access" access;
                      role = role;
                      listed = listed;
                      named = named;
                    },
                    rw (given, carried, parsed, access, allowed) refl,
                  )
            ]
          ]
        ]
      ]
    ]
