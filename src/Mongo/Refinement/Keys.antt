-- ===== src/Mongo/Refinement/Keys.antt =====
-- What the writes by key of internal/store/mongo.go do, against a map of memory.go.
use visto_easy.Prelude.{
  Bool, true, ◌≡◌, ◌≢◌, refl, ◌∙◌, sym, inl, inr, String, List, on_some, ◌==◌, ◌&&◌, if◌then◌else◌,
  Option-cases, Bool-cases,
}
use visto_easy.Prelude.Dict.{Dict, lookup, insert, erase}
use visto_easy.Mongo.Driver.{Collection, Counts, answer}
use visto_easy.Mongo.Tables.{Tables, Answers}
use visto_easy.Mongo.Refinement.Keyed.{
  Keyed, has_key, first-lookup, first-lookup_and, Keyed-insert_fresh, Keyed-insert_known,
  Keyed-insert_and, Keyed-erase, erase-absent, key-lookup,
}

-- `R` is what is claimed of the tables and the map after a write; it holds where nothing was
-- written, and wherever a table was written that still goes with the map.
module _ {S D : Type 0} {view : S → Tables} {docs : Tables → List D}
    {put : List D → Tables → Tables} {clash : D → D → Bool} {c : Collection S D}
    (a : Answers view docs put clash c) (key : D → String) {d : Dict D} (s : S)
    (h : Keyed key (docs (view s)) d) (R : Tables → Dict D → Type 0)
    (write : (u : Tables) (l : List D) (d' : Dict D) → u ≡ put l (view s) → Keyed key l d' → R u d')
    (keep : R (view s) d) where
  pub upsert_lem :
      (id : String) (v : D)
      → key v ≡ id
      → clash ≡ (λ x y. key y == key x)
      → (n : Counts) × ((c.upsert_one (has_key key id) (λ _. v) v s).1 ≡ answer n)
        × R (view (c.upsert_one (has_key key id) (λ _. v) v s).0) (insert id v d)
  upsert_lem id v named keyed =
      let clash_at : (x : D) → key x ≡ id → clash x ≡ has_key key id =
        λ x e. rw keyed (rw e refl) in
      elim (Option-cases (lookup id d)) [
        | inl absent ↦
            let missing = first-lookup key h id ∙ absent in
            let (n, answered, after') =
              a.upsert_one_miss (has_key key id) (λ _. v) v s missing
                (rw (clash_at v named) missing) in
            (n, answered, write _ _ _ after' (Keyed-insert_fresh key h id v named absent))
        | inr (old, there) ↦
            let old_key = key-lookup key id d old h.keyed there in
            let (n, answered, after') =
              a.upsert_one_hit (has_key key id) (λ _. v) v s old (first-lookup key h id ∙ there)
                (clash_at v named ∙ sym (clash_at old old_key)) in
            (n, answered, write _ _ _ after' (Keyed-insert_known key h id (λ _. v) old named there))
      ]

  pub delete_lem :
      (id : String)
      → ((c.delete_one (has_key key id) s).1 ≡ answer (on_some (lookup id d) 0 λ _. 1))
        × R (view (c.delete_one (has_key key id) s).0) (erase id d)
  delete_lem id = elim (Option-cases (lookup id d)) [
    | inl absent ↦
        let (answered, after') =
          a.delete_one_miss (has_key key id) s (first-lookup key h id ∙ absent) in
        (rw absent answered, rw (after', erase-absent key id d absent) keep)
    | inr (old, there) ↦
        let (answered, after') =
          a.delete_one_hit (has_key key id) s old (first-lookup key h id ∙ there) in
        (rw there answered, write _ _ _ after' (Keyed-erase key h id))
  ]

  module _ (f : D → D) (same_key : (v : D) → key (f v) ≡ key v)
      (same_clash : (v : D) → clash (f v) ≡ clash v) where
    pub update_lem :
        (id : String)
        → let o = c.update_one (has_key key id) f s in
          (n : Counts) × (o.1 ≡ answer n)
          × (n.matched ≡ on_some (lookup id d) 0 λ _. 1)
          × R (view o.0) (on_some (lookup id d) d λ v. insert id (f v) d)
    update_lem id = elim (Option-cases (lookup id d)) [
      | inl absent ↦
          let (answered, after') =
            a.update_one_miss (has_key key id) f s (first-lookup key h id ∙ absent) in
          (_, answered, rw absent refl, rw (after', absent) keep)
      | inr (v, there) ↦
          let (n, answered, _, after') =
            a.update_one_hit (has_key key id) f s v (first-lookup key h id ∙ there)
              (same_clash v) in
          let k = same_key v ∙ key-lookup key id d v h.keyed there in
          (
            _,
            answered,
            rw there refl,
            rw there (write _ _ _ after' (Keyed-insert_known key h id f v k there)),
          )
    ]

    -- An update of the entry with a key that asks for more, and changes what it asks for.
    pub update_and_lem :
        (id : String) (also : D → Bool)
        → ((v : D) → also v ≡ true → f v ≢ v)
        → let o = c.update_one (λ v. has_key key id v && also v) f s in
          (n : Counts) × (o.1 ≡ answer n)
          × (n.modified ≡ on_some (lookup id d) 0 λ v. if also v then 1 else 0)
          × R (view o.0) (on_some (lookup id d) d λ v. if also v then insert id (f v) d else d)
    update_and_lem id also changes =
        let q = λ (v : D). has_key key id v && also v in
        elim (Option-cases (lookup id d)) [
          | inl absent ↦
              let (answered, after') =
                a.update_one_miss q f s (first-lookup_and key h id also ∙ rw absent refl) in
              (_, answered, rw absent refl, rw (after', absent) keep)
          | inr (v, there) ↦ elim (Bool-cases (also v)) [
            | inl hit ↦
                let (n, answered, one, after') =
                  a.update_one_hit q f s v (first-lookup_and key h id also ∙ rw (there, hit) refl)
                    (same_clash v) in
                let k = same_key v ∙ key-lookup key id d v h.keyed there in
                (
                  _,
                  answered,
                  rw (there, hit) (one (changes v hit)),
                  rw (there, hit)
                      (write _ _ _ after' (Keyed-insert_and key h id also f v k there hit)),
                )
            | inr miss ↦
                let (answered, after') =
                  a.update_one_miss q f s
                    (first-lookup_and key h id also ∙ rw (there, miss) refl) in
                (_, answered, rw (there, miss) refl, rw (after', there, miss) keep)
          ]
        ]
