-- ===== src/Http/Ranking.antt =====
-- internal/httpapi/server.go: topMapEntries, the keys of a map with the largest counts.
pub mod Top
use visto_easy.Prelude.{ℕ, Bool, ◌&&◌, String, List, [], ◌∷◌, if◌then◌else◌, ltb, eqb, length, take}
use visto_easy.Prelude.Dict.{Dict}
use visto_easy.Prelude.Compare.{text_ltb}

-- The function that `sort.Slice` is given.
unfoldable pub outranks : String × ℕ → String × ℕ → Bool
outranks (k, m) (j, n) = if eqb m n then text_ltb k j else ltb n m

unfoldable pub insert_ranked : String × ℕ → Dict ℕ → Dict ℕ
insert_ranked a [] = a ∷ []
insert_ranked a (b ∷ bs) =
    let rest = insert_ranked a bs in if outranks b a then b ∷ rest else a ∷ b ∷ bs

-- The sort of the pairs.
unfoldable pub ranked : Dict ℕ → Dict ℕ
unfolding insert_ranked
ranked [] = []
ranked (a ∷ as') = insert_ranked a (ranked as')

unfoldable pub top_map_entries : Dict ℕ → ℕ → Dict ℕ
unfolding ranked
top_map_entries items limit =
    let pairs = ranked items in
    if ltb 0 limit && ltb limit (length pairs) then take limit pairs else pairs
