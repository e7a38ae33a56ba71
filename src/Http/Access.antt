-- ===== src/Http/Access.antt =====
-- internal/httpapi/middleware.go: who may call a handler, and from which origin; and the tests on
-- roles of internal/httpapi/server.go.
pub mod Chain
use Prim.Native.String.{slice}
use Prim.Native.Char.{code}
use visto_easy.Prelude.{
  Bool, true, false, not, ◌||◌, String, List, [], ◌∷◌, Option, none, some, ◌==◌, if◌then◌else◌,
  on_some, trim_space, to_lower, eqb, String-discrete, ◌≡◌, refl,
}
use visto_easy.Model.{Role, operatore, supervisore, admin, role_name}
use visto_easy.Store.State.{MemoryStore}
use visto_easy.Http.Reply.{Claims, Served, write_err}

-- A handler behind the authentication: what it does with the claims, and without.
abbrev pub Handler : Type 0
Handler = Option Claims → MemoryStore → Served

-- `strings.SplitN(h, " ", 2)[1]`: what follows the first space, if there is one.
unfoldable pub after_space : String → Option String
after_space String.[] = none
after_space (String.◌∷◌ c s) =
    let rest = after_space s in if eqb (code c) b' ' then some s else rest

-- `authMiddleware`: the handler runs with the claims of a valid access token. `parse` is
-- `s.tokens.Parse`, none for an error.
unfoldable pub auth_middleware : (String → Option Claims) → String → Handler → MemoryStore → Served
unfolding after_space
auth_middleware parse authorization next s =
    let h = trim_space authorization in
    if h == "" || not (slice (to_lower h) 0 7 == "bearer ")
    then (s, write_err 401 "token mancante")
    else on_some (after_space h) (s, write_err 401 "token non valido")
        λ token.
          on_some (parse (trim_space token)) (s, write_err 401 "token non valido")
            λ claims.
              if not (claims.type == "access")
              then (s, write_err 401 "token non valido")
              else next (some claims) s

-- `allowed[role]` for the map that `requireRoles` builds.
unfoldable pub is_allowed : List Role → String → Bool
is_allowed [] role = false
is_allowed (r ∷ roles) role = role_name r == role || is_allowed roles role

unfoldable pub require_roles : List Role → Handler → Handler
unfolding is_allowed
require_roles roles next claims s =
    on_some claims (s, write_err 401 "non autenticato")
      λ c.
        if not (is_allowed roles c.role)
        then (s, write_err 403 "ruolo non autorizzato")
        else next claims s

-- The roles that the router asks for under /api/bo.
abbrev pub backoffice_roles : List Role
backoffice_roles = operatore ∷ supervisore ∷ admin ∷ []

unfoldable pub is_backoffice_role : Role → Bool
is_backoffice_role operatore = true
is_backoffice_role supervisore = true
is_backoffice_role admin = true
is_backoffice_role _ = false

-- `claims.Role == string(model.RoleRichiedente)`
abbrev pub is_richiedente : Claims → Bool
is_richiedente c = c.role == "RICHIEDENTE"

-- The loop of `purposeMatches`.
unfoldable is_one_of : String → List String → Bool
is_one_of actual [] = false
is_one_of actual (item ∷ items) =
    if actual == to_lower (trim_space item) then true else is_one_of actual items

unfoldable pub purpose_matches : String → List String → Bool
unfolding is_one_of
purpose_matches actual expected =
    let a = to_lower (trim_space actual) in if a == "" then true else is_one_of a expected

-- `strings.Split(raw, ",")`, given the text before the next comma, backwards.
unfoldable pub split_commas : String → List String
split_commas String.[] = "" ∷ []
split_commas (String.◌∷◌ c s) =
    let rest = split_commas s in if eqb (code c) b',' then "" ∷ rest else on_head c rest
  where
    on_head : Prim.Native.Char.Char → List String → List String
    on_head c [] = String.◌∷◌ c "" ∷ []
    on_head c (w ∷ ws) = String.◌∷◌ c w ∷ ws

-- The text before the first comma: `strings.Split(s, ",")[0]`.
abbrev first_part : List String → String
first_part [] = ""
first_part (w ∷ ws) = w

-- `clientIP(r)` for the headers `X-Forwarded-For` and `X-Real-IP` and the remote address;
-- `net.SplitHostPort` is a parameter, none for an error.
unfoldable pub client_ip : (String → Option String) → String → String → String → String
unfolding split_commas
client_ip split_host_port forwarded real remote =
    let address = trim_space remote in
    if not (trim_space forwarded == "")
    then trim_space (first_part (split_commas (trim_space forwarded)))
    else if not (trim_space real == "")
    then trim_space real
    else on_some (split_host_port address) address
        λ host. if trim_space host == "" then address else trim_space host

-- The loop of `parseAllowedOrigins`.
unfoldable trimmed_parts : List String → List String
trimmed_parts [] = []
trimmed_parts (p ∷ ps) =
    let rest = trimmed_parts ps in if trim_space p == "" then rest else trim_space p ∷ rest

-- `if len(out) == 0 { return []string{"*"} }`
abbrev or_star : List String → List String
or_star [] = "*" ∷ []
or_star (x ∷ xs) = x ∷ xs

unfoldable pub parse_allowed_origins : String → List String
unfolding split_commas trimmed_parts
parse_allowed_origins raw =
    let r = trim_space raw in if r == "" then "*" ∷ [] else or_star (trimmed_parts (split_commas r))

-- `strings.EqualFold`, on the letters of ASCII.
unfoldable pub is_origin_allowed : String → List String → Bool
is_origin_allowed origin [] = false
is_origin_allowed origin (candidate ∷ allowed) =
    if candidate == "*" || to_lower origin == to_lower candidate
    then true
    else is_origin_allowed origin allowed

origins_test :
    parse_allowed_origins " https://a.it , ,http://b.it" ≡ "https://a.it" ∷ "http://b.it" ∷ []
unfolding parse_allowed_origins String-discrete trim_space
origins_test = refl
