-- ===== src/Mongo/Refinement/Purges.antt =====
-- The lists of internal/store that drop the entries that have ended: a loop over a map in
-- memory.go, a deletion and a sorted query in mongo.go.
use mathlib.Core.List.Perm
use visto_easy.Prelude.{
  Bool, not, ◌≡◌, refl, inl, inr, String, List, [], ◌∷◌, none, ◌&&◌, arith, Bool-cases,
  if◌then◌else◌, All,
}
use visto_easy.Prelude.Clock.{Time}
use visto_easy.Prelude.Dict.{Dict, lookup, values, IsMap}
use visto_easy.Store.Order.{latest_first, latest_first-perm}
use visto_easy.Store.Order.Strict.{IsStrict, IsLatestFirst-unique}
use visto_easy.Mongo.Driver.{Collection, list_by}
use visto_easy.Mongo.Tables.{Tables, Answers, select}
use visto_easy.Mongo.Refinement.Keyed.{Keyed, AreKeyed}

module _ {D : Type 0} (live : D → Bool) where
  -- What is left of a map.
  unfoldable pub keep : Dict D → Dict D
  keep [] = []
  keep ((k, d) ∷ m) = let rest = keep m in if live d then (k, d) ∷ rest else rest

  values-keep : (m : Dict D) → values (keep m) ≡ select live (values m)
  unfolding keep values select
  values-keep [] = refl
  values-keep ((k, d) ∷ m) = ground (arith, values-keep m)

  lookup-keep : (k : String) (m : Dict D) → lookup k m ≡ none → lookup k (keep m) ≡ none
  unfolding keep lookup
  lookup-keep k [] h = refl
  lookup-keep k ((j, d) ∷ m) h = ground (arith, lookup-keep k m)

  keep-IsMap : (m : Dict D) → IsMap m → IsMap (keep m)
  unfolding keep
  keep-IsMap [] i = tt
  keep-IsMap ((k, d) ∷ m) (i, is) = elim (Bool-cases (live d)) [
    | inl yes' ↦ rw yes' (lookup-keep k m i, keep-IsMap m is)
    | inr no' ↦ rw no' (keep-IsMap m is)
  ]

  keep-AreKeyed : (key : D → String) (m : Dict D) → AreKeyed key m → AreKeyed key (keep m)
  unfolding keep
  keep-AreKeyed key [] h = tt
  keep-AreKeyed key ((k, d) ∷ m) (h, hs) = elim (Bool-cases (live d)) [
    | inl yes' ↦ rw yes' (h, keep-AreKeyed key m hs)
    | inr no' ↦ rw no' (keep-AreKeyed key m hs)
  ]

  select-agree :
      (q : D → Bool) (ds : List D) → All (λ d. live d ≡ q d) ds → select q ds ≡ select live ds
  unfolding select
  select-agree q [] h = refl
  select-agree q (d ∷ ds) (h, hs) = rw (h, select-agree q ds hs) refl

  select-select :
      (q mine : D → Bool) (ds : List D)
      → ((d : D) → q d ≡ mine d && live d)
      → select q (select live ds) ≡ select mine (select live ds)
  unfolding select
  select-select q mine [] h = refl
  select-select q mine (d ∷ ds) h = elim (Bool-cases (live d)) [
    | inl yes' ↦
        let same : q d ≡ mine d = let e = h d in ground arith in
        rw yes' (rw (same, select-select q mine ds h) refl)
    | inr no' ↦ rw no' (select-select q mine ds h)
  ]

module _ {S D : Type 0} {view : S → Tables} {docs : Tables → List D}
    {put : List D → Tables → Tables} {clash : D → D → Bool} {c : Collection S D}
    (h : Answers view docs put clash c) (docs-put : (l : List D) (t : Tables) → docs (put l t) ≡ l)
    {key : D → String} (s : S) {m : Dict D} (k : Keyed key (docs (view s)) m)
    (live over mine q : D → Bool) (time : D → Time)
    (agrees : All (λ (d : D). live d ≡ not (over d)) (values m))
    (asks : (d : D) → q d ≡ mine d && not (over d)) where
  left : docs (view (c.delete_many over s).0) ≡ select (λ d. not (over d)) (docs (view s))
  left = rw (h.delete_many_lem over s) (docs-put _ _)

  kept : select (λ d. not (over d)) (docs (view s)) ≡ values (keep live m)
  kept = rw (k.same, values-keep live m) (select-agree live (λ d. not (over d)) (values m) agrees)

  pub Keyed-keep :
      (view (c.delete_many over s).0 ≡ put (select (λ d. not (over d)) (docs (view s))) (view s))
      × Keyed key (select (λ d. not (over d)) (docs (view s))) (keep live m)
  Keyed-keep = (
    h.delete_many_lem over s,
    record {
      same = kept;
      keyed = keep-AreKeyed live key m k.keyed;
      is_map = keep-IsMap live m k.is_map;
    },
  )

  -- What the two list, where no two of the times are one.
  pub list_by-keep :
      IsSet D
      → IsStrict time (latest_first time (select mine (values (keep live m))))
      → list_by c q time none (c.delete_many over s).0
        ≡ latest_first time (select mine (values (keep live m)))
  unfolding list_by
  list_by-keep set strict =
      let s' = (c.delete_many over s).0 in
      let (ds, perm, sorted, answered) = h.find_lem q time none s' in
      let same : select q (docs (view s')) ≡ select mine (values (keep live m)) =
        rw left
          (rw (select-select (λ d. not (over d)) q mine (docs (view s)) asks) (rw kept refl)) in
      rw answered (
        IsLatestFirst-unique time set ds _ sorted strict
          (Perm.trans (rw same at perm) (Perm.symm (latest_first-perm time _))))
