-- ===== src/Store/Order.antt =====
-- `sort.Slice(out, func(i, j int) bool { return out[i].T.After(out[j].T) })`, the order of every
-- list that the store returns: latest first. Go leaves the order of equal times open; here a
-- later element of the input comes first among them.
pub mod Strict
use mathlib.Core.List.{Perm, Memᴰ}
use mathlib.Core.List.Perm
use visto_easy.Prelude.{◌≤◌, ◌≡◌, ◌⊎◌, List, [], ◌∷◌, arith, Bool-cases, inl, inr, if◌then◌else◌}
use visto_easy.Prelude.Clock.{Time, after}

module _ {A : Type 0} (time : A → Time) where
  unfoldable insert_by_time : A → List A → List A
  insert_by_time a [] = a ∷ []
  insert_by_time a (b ∷ bs) =
      if after (time b) (time a) then b ∷ insert_by_time a bs else a ∷ b ∷ bs

  unfoldable pub latest_first : List A → List A
  unfolding insert_by_time
  latest_first [] = []
  latest_first (a ∷ as') = insert_by_time a (latest_first as')

  -- No element is later than one that stands before it.
  abbrev pub AllBefore : Time → List A → Type 0
  AllBefore t [] = Unit
  AllBefore t (b ∷ bs) = (time b ≤ t) × AllBefore t bs

  abbrev pub IsLatestFirst : List A → Type 0
  IsLatestFirst [] = Unit
  IsLatestFirst (b ∷ bs) = AllBefore (time b) bs × IsLatestFirst bs

  AllBefore-insert_by_time :
      (t : Time) (a : A) (bs : List A)
      → time a ≤ t
      → AllBefore t bs
      → AllBefore t (insert_by_time a bs)
  unfolding insert_by_time
  AllBefore-insert_by_time t a [] h k = (h, tt)
  AllBefore-insert_by_time t a (b ∷ bs) h (k, ks) = elim (Bool-cases (after (time b) (time a))) [
    | inl e ↦ rw e (k, AllBefore-insert_by_time t a bs h ks)
    | inr e ↦ rw e (h, (k, ks))
  ]

  AllBefore-mono : (t u : Time) (bs : List A) → t ≤ u → AllBefore t bs → AllBefore u bs
  AllBefore-mono t u [] h k = tt
  AllBefore-mono t u (b ∷ bs) h (k, ks) = (omega arith, AllBefore-mono t u bs h ks)

  insert_by_time-IsLatestFirst :
      (a : A) (bs : List A) → IsLatestFirst bs → IsLatestFirst (insert_by_time a bs)
  unfolding insert_by_time
  insert_by_time-IsLatestFirst a [] h = (tt, tt)
  insert_by_time-IsLatestFirst a (b ∷ bs) (h, hs) = elim (Bool-cases (after (time b) (time a))) [
    | inl e ↦ rw e (
      AllBefore-insert_by_time (time b) a bs (ground arith) h,
      insert_by_time-IsLatestFirst a bs hs,
    )
    | inr e ↦
        let le : time b ≤ time a = ground arith in
        rw e ((le, AllBefore-mono (time b) (time a) bs le h), (h, hs))
  ]

  pub latest_first-IsLatestFirst : (as' : List A) → IsLatestFirst (latest_first as')
  unfolding latest_first
  latest_first-IsLatestFirst [] = tt
  latest_first-IsLatestFirst (a ∷ as') =
      insert_by_time-IsLatestFirst a (latest_first as') (latest_first-IsLatestFirst as')

  insert_by_time-perm : (a : A) (bs : List A) → Perm (insert_by_time a bs) (a ∷ bs)
  unfolding insert_by_time
  insert_by_time-perm a [] = Perm.refl (a ∷ [])
  insert_by_time-perm a (b ∷ bs) = elim (Bool-cases (after (time b) (time a))) [
    | inl e ↦ rw e (Perm.trans (Perm.cons b (insert_by_time-perm a bs)) (Perm.swap a b bs))
    | inr e ↦ rw e (Perm.refl (a ∷ b ∷ bs))
  ]

  pub latest_first-perm : (as' : List A) → Perm (latest_first as') as'
  unfolding latest_first
  latest_first-perm [] = Perm.refl []
  latest_first-perm (a ∷ as') =
      Perm.trans (insert_by_time-perm a (latest_first as')) (Perm.cons a (latest_first-perm as'))

  Memᴰ-insert_by_time :
      {x : A} (a : A) (bs : List A) → Memᴰ x (insert_by_time a bs) → (x ≡ a) ⊎ Memᴰ x bs
  unfolding insert_by_time
  Memᴰ-insert_by_time a [] (Memᴰ.head e) = inl e
  Memᴰ-insert_by_time a [] (Memᴰ.tail m) = inr m
  Memᴰ-insert_by_time {x} a (b ∷ bs) m = elim (Bool-cases (after (time b) (time a))) [
    | inl e ↦ keep_head b bs (rw e at m) (Memᴰ-insert_by_time a bs)
    | inr e ↦ split_head (rw e at m)
  ]
    where
      split_head : {ys : List A} → Memᴰ x (a ∷ ys) → (x ≡ a) ⊎ Memᴰ x ys
      split_head (Memᴰ.head e) = inl e
      split_head (Memᴰ.tail n) = inr n

      keep_head :
          (c : A) (cs : List A)
          → Memᴰ x (c ∷ insert_by_time a cs)
          → (Memᴰ x (insert_by_time a cs) → (x ≡ a) ⊎ Memᴰ x cs)
          → (x ≡ a) ⊎ Memᴰ x (c ∷ cs)
      keep_head c cs (Memᴰ.head e) f = inr (Memᴰ.head e)
      keep_head c cs (Memᴰ.tail n) f = elim (f n) [ inl e ↦ inl e | inr k ↦ inr (Memᴰ.tail k) ]

  pub Memᴰ-latest_first : {x : A} (xs : List A) → Memᴰ x (latest_first xs) → Memᴰ x xs
  unfolding latest_first
  Memᴰ-latest_first [] m = m
  Memᴰ-latest_first (a ∷ xs) m = elim (Memᴰ-insert_by_time a (latest_first xs) m) [
    | inl e ↦ Memᴰ.head e
    | inr n ↦ Memᴰ.tail (Memᴰ-latest_first xs n)
  ]

  insert_by_time-Memᴰ :
      {x : A} (a : A) (bs : List A) → Memᴰ x (a ∷ bs) → Memᴰ x (insert_by_time a bs)
  unfolding insert_by_time
  insert_by_time-Memᴰ a [] m = m
  insert_by_time-Memᴰ a (b ∷ bs) (Memᴰ.head e) = elim (Bool-cases (after (time b) (time a))) [
    | inl h ↦ rw h (Memᴰ.tail (insert_by_time-Memᴰ a bs (Memᴰ.head e)))
    | inr h ↦ rw h (Memᴰ.head e)
  ]
  insert_by_time-Memᴰ a (b ∷ bs) (Memᴰ.tail (Memᴰ.head e)) =
      elim (Bool-cases (after (time b) (time a))) [
        | inl h ↦ rw h (Memᴰ.head e)
        | inr h ↦ rw h (Memᴰ.tail (Memᴰ.head e))
      ]
  insert_by_time-Memᴰ a (b ∷ bs) (Memᴰ.tail (Memᴰ.tail m)) =
      elim (Bool-cases (after (time b) (time a))) [
        | inl h ↦ rw h (Memᴰ.tail (insert_by_time-Memᴰ a bs (Memᴰ.tail m)))
        | inr h ↦ rw h (Memᴰ.tail (Memᴰ.tail m))
      ]

  pub latest_first-Memᴰ : {x : A} (xs : List A) → Memᴰ x xs → Memᴰ x (latest_first xs)
  unfolding latest_first
  latest_first-Memᴰ [] m = m
  latest_first-Memᴰ (a ∷ xs) (Memᴰ.head e) = insert_by_time-Memᴰ a (latest_first xs) (Memᴰ.head e)
  latest_first-Memᴰ (a ∷ xs) (Memᴰ.tail m) =
      insert_by_time-Memᴰ a (latest_first xs) (Memᴰ.tail (latest_first-Memᴰ xs m))
