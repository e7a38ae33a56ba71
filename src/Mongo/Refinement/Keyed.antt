-- ===== src/Mongo/Refinement/Keyed.antt =====
-- A map of memory.go whose values carry their keys, and the documents of mongo.go in the same
-- order: a method of the one by key is an operation of the other by a filter on the field.
use visto_easy.Prelude.{
  Bool, true, ◌≡◌, refl, ap, inl, inr, String, List, [], ◌∷◌, ◌++◌, none, some, ◌==◌, on_some, ◌&&◌,
  if◌then◌else◌, eq_of_==, arith, Bool-cases,
}
use visto_easy.Prelude.Dict.{Dict, lookup, insert, erase, values, IsMap, insert-IsMap, lookup-erase}
use visto_easy.Mongo.Tables.{first, update_first, remove_first}

module _ {D : Type 0} (key : D → String) where
  abbrev pub AreKeyed : Dict D → Type 0
  AreKeyed [] = Unit
  AreKeyed ((k, d) ∷ m) = (key d ≡ k) × AreKeyed m

  -- The filter `bson.M{field: k}`.
  abbrev pub has_key : String → D → Bool
  has_key k d = key d == k

  pub record Keyed (docs : List D) (m : Dict D) : Type 0 where
    pub same : docs ≡ values m
    pub keyed : AreKeyed m
    pub is_map : IsMap m

  first-values : (k : String) (m : Dict D) → AreKeyed m → first (has_key k) (values m) ≡ lookup k m
  unfolding first values lookup
  first-values k [] h = refl
  first-values k ((j, d) ∷ m) (e, h) = rw e (rw (first-values k m h) refl)

  values-insert_fresh :
      (k : String) (d : D) (m : Dict D)
      → lookup k m ≡ none
      → values (insert k d m) ≡ values m ++ d ∷ []
  unfolding values lookup insert
  values-insert_fresh k d [] h = refl
  values-insert_fresh k d ((j, c) ∷ m) h = ground (arith, values-insert_fresh k d m)

  values-insert_known :
      (k : String) (f : D → D) (m : Dict D) (d : D)
      → AreKeyed m
      → lookup k m ≡ some d
      → values (insert k (f d) m) ≡ update_first (has_key k) f (values m)
  unfolding values lookup insert update_first
  values-insert_known k f [] d h at = absurd (ground arith)
  values-insert_known k f ((j, c) ∷ m) d (e, h) at = ground (arith, values-insert_known k f m d h)

  pub erase-absent : (k : String) (m : Dict D) → lookup k m ≡ none → erase k m ≡ m
  unfolding lookup erase
  erase-absent k [] h = refl
  erase-absent k ((j, c) ∷ m) h = ground (arith, erase-absent k m)

  values-erase :
      (k : String) (m : Dict D)
      → AreKeyed m
      → IsMap m
      → values (erase k m) ≡ remove_first (has_key k) (values m)
  unfolding values erase remove_first
  values-erase k [] h i = refl
  values-erase k ((j, c) ∷ m) (e, h) (n, i) = elim (Bool-cases (j == k)) [
    | inl same ↦ rw (e, same) (ap values (erase-absent k m (rw (eq_of_== j k same) at n)))
    | inr other ↦ rw (e, other) (ap (λ l. c ∷ l) (values-erase k m h i))
  ]

  insert-AreKeyed :
      (k : String) (d : D) (m : Dict D) → key d ≡ k → AreKeyed m → AreKeyed (insert k d m)
  unfolding insert
  insert-AreKeyed k d [] e h = (e, tt)
  insert-AreKeyed k d ((j, c) ∷ m) e (x, h) = elim (Bool-cases (j == k)) [
    | inl same ↦ rw same (e, h)
    | inr other ↦ rw other (x, insert-AreKeyed k d m e h)
  ]

  erase-AreKeyed : (k : String) (m : Dict D) → AreKeyed m → AreKeyed (erase k m)
  unfolding erase
  erase-AreKeyed k [] h = tt
  erase-AreKeyed k ((j, c) ∷ m) (x, h) = elim (Bool-cases (j == k)) [
    | inl same ↦ rw same (erase-AreKeyed k m h)
    | inr other ↦ rw other (x, erase-AreKeyed k m h)
  ]

  erase-IsMap : (k : String) (m : Dict D) → IsMap m → IsMap (erase k m)
  unfolding erase
  erase-IsMap k [] h = tt
  erase-IsMap k ((j, c) ∷ m) (x, h) = elim (Bool-cases (j == k)) [
    | inl same ↦ rw same (erase-IsMap k m h)
    | inr other ↦ rw other (ground (arith, lookup-erase j k m), erase-IsMap k m h)
  ]

  -- Writing a value back where it stands changes nothing.
  pub insert_same : (k : String) (d : D) (m : Dict D) → lookup k m ≡ some d → insert k d m ≡ m
  unfolding lookup insert
  insert_same k d [] at = absurd (ground arith)
  insert_same k d ((j, c) ∷ m) at = elim (Bool-cases (j == k)) [
    | inl same ↦ rw (eq_of_== j k same) (ground arith)
    | inr other ↦ rw other (ap (λ l. (j, c) ∷ l) (insert_same k d m (rw other at at)))
  ]

  -- A value that a key leads to carries the key.
  pub key-lookup : (k : String) (m : Dict D) (d : D) → AreKeyed m → lookup k m ≡ some d → key d ≡ k
  unfolding lookup
  key-lookup k [] d h at = absurd (ground arith)
  key-lookup k ((j, c) ∷ m) d (e, h) at = ground (arith, key-lookup k m d h)

  -- A filter that asks for a key and for more.
  first-values_and :
      (k : String) (c : D → Bool) (m : Dict D)
      → AreKeyed m
      → IsMap m
      → first (λ d. has_key k d && c d) (values m)
        ≡ on_some (lookup k m) none λ d. if c d then some d else none
  unfolding first values lookup
  first-values_and k c [] h i = refl
  first-values_and k c ((j, d) ∷ m) (e, h) (n, i) = elim (Bool-cases (j == k)) [
    | inl same ↦ elim (Bool-cases (c d)) [
      | inl yes' ↦ rw (e, same, yes') refl
      | inr no' ↦
          rw (e, same, no') (rw (first-values_and k c m h i) (rw (← eq_of_== j k same) (rw n refl)))
    ]
    | inr other ↦ rw (e, other) (first-values_and k c m h i)
  ]

  update_first-and :
      (k : String) (c : D → Bool) (f : D → D) (m : Dict D) (d : D)
      → AreKeyed m
      → lookup k m ≡ some d
      → c d ≡ true
      → update_first (λ d. has_key k d && c d) f (values m) ≡ update_first (has_key k) f (values m)
  unfolding update_first values lookup
  update_first-and k c f [] d h at ok = refl
  update_first-and k c f ((j, b) ∷ m) d (e, h) at ok = ground (arith, update_first-and k c f m d h)

  remove_first-and :
      (k : String) (c : D → Bool) (m : Dict D) (d : D)
      → AreKeyed m
      → lookup k m ≡ some d
      → c d ≡ true
      → remove_first (λ d. has_key k d && c d) (values m) ≡ remove_first (has_key k) (values m)
  unfolding remove_first values lookup
  remove_first-and k c [] d h at ok = refl
  remove_first-and k c ((j, b) ∷ m) d (e, h) at ok = ground (arith, remove_first-and k c m d h)

  module _ {docs : List D} {m : Dict D} (h : Keyed docs m) where
    pub first-lookup : (k : String) → first (has_key k) docs ≡ lookup k m
    first-lookup k = rw h.same (first-values k m h.keyed)

    -- A write to the map under the value's own key.
    pub Keyed-insert :
        {docs' : List D} (k : String) (d : D)
        → key d ≡ k
        → docs' ≡ values (insert k d m)
        → Keyed docs' (insert k d m)
    Keyed-insert k d e same = record {
      same = same;
      keyed = insert-AreKeyed k d m e h.keyed;
      is_map = insert-IsMap k d m h.is_map;
    }

    pub Keyed-insert_fresh :
        (k : String) (d : D) → key d ≡ k → lookup k m ≡ none → Keyed (docs ++ d ∷ []) (insert k d m)
    Keyed-insert_fresh k d e new =
        Keyed-insert k d e (rw (values-insert_fresh k d m new) (ap (λ l. l ++ d ∷ []) h.same))

    pub Keyed-insert_known :
        (k : String) (f : D → D) (d : D)
        → key (f d) ≡ k
        → lookup k m ≡ some d
        → Keyed (update_first (has_key k) f docs) (insert k (f d) m)
    Keyed-insert_known k f d e at =
        Keyed-insert k (f d) e
          (rw (values-insert_known k f m d h.keyed at) (ap (update_first (has_key k) f) h.same))

    pub Keyed-erase : (k : String) → Keyed (remove_first (has_key k) docs) (erase k m)
    Keyed-erase k = record {
      same = rw (values-erase k m h.keyed h.is_map) (ap (remove_first (has_key k)) h.same);
      keyed = erase-AreKeyed k m h.keyed;
      is_map = erase-IsMap k m h.is_map;
    }

    -- The same for a filter that asks for a key and for more.
    pub first-lookup_and :
        (k : String) (c : D → Bool)
        → first (λ d. has_key k d && c d) docs
          ≡ on_some (lookup k m) none λ d. if c d then some d else none
    first-lookup_and k c = rw h.same (first-values_and k c m h.keyed h.is_map)

    pub Keyed-insert_and :
        (k : String) (c : D → Bool) (f : D → D) (d : D)
        → key (f d) ≡ k
        → lookup k m ≡ some d
        → c d ≡ true
        → Keyed (update_first (λ d. has_key k d && c d) f docs) (insert k (f d) m)
    Keyed-insert_and k c f d e at ok = Keyed-insert k (f d) e (
        rw (values-insert_known k f m d h.keyed at)
          (rw h.same (update_first-and k c f m d h.keyed at ok)))

    pub Keyed-erase_and :
        (k : String) (c : D → Bool) (d : D)
        → lookup k m ≡ some d
        → c d ≡ true
        → Keyed (remove_first (λ d. has_key k d && c d) docs) (erase k m)
    Keyed-erase_and k c d at ok = record {
      same =
          rw (values-erase k m h.keyed h.is_map)
            (rw h.same (remove_first-and k c m d h.keyed at ok));
      keyed = erase-AreKeyed k m h.keyed;
      is_map = erase-IsMap k m h.is_map;
    }
