-- ===== src/Http/Ranking/Top.antt =====
-- internal/httpapi/server.go: what topMapEntries keeps.
use mathlib.Core.List.{Perm}
use mathlib.Core.List.Perm
use visto_easy.Prelude.{ℕ, ◌≡◌, false, [], ◌∷◌, All}
use visto_easy.Prelude.Dict.{Dict}
use visto_easy.Http.Ranking.{outranks}

-- No entry outranks one that stands before it.
abbrev pub IsRanked : Dict ℕ → Type 0
IsRanked [] = Unit
IsRanked (a ∷ as') = All (λ b. outranks b a ≡ false) as' × IsRanked as'
