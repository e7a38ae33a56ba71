-- ===== src/Http/Pagination/Slices.antt =====
-- The pages of internal/httpapi/server.go cut a list into pieces.
use visto_easy.Prelude.{
  ℕ, zero, suc, ◌+◌, ◌*◌, ◌-◌, ◌≤◌, ◌<◌, ◌≡◌, refl, sym, ap, ◌∙◌, true, false, ◌||◌, List, [], ◌∷◌,
  ◌++◌, length, take, drop, Option, none, some, arith, Bool-cases, leb, ltb, inl, inr, on_some,
}
use visto_easy.Http.Pagination.{word, is_negative, less, paginate_bounds, slice_items, page_of}

word_small : (n : ℕ) → n < 9223372036854775808 → word n ≡ n
word_small n h = omega arith

module _ (total n q size : ℕ) (at : (suc n - 1) * size ≡ q) (small : q + size < 9223372036854775808)
    (few : total < 9223372036854775808) where
  bounds-past : leb total q ≡ true → paginate_bounds total (suc n) size ≡ (total, total)
  unfolding paginate_bounds
  bounds-past past =
      let w : word q ≡ q = word_small q (omega arith) in
      let l : less q total ≡ false = ground arith in
      elim (Bool-cases (leb total 0)) [
        | inl empty ↦ let z : total ≡ 0 = ground arith in rw (at, w, l, z) refl
        | inr some_ ↦ rw (at, w, l, some_) refl
      ]

  bounds-full :
      leb total q ≡ false
      → leb (q + size) total ≡ true
      → paginate_bounds total (suc n) size ≡ (q, q + size)
  unfolding paginate_bounds
  bounds-full inside full =
      let w : word q ≡ q = word_small q (omega arith) in
      let v : word (q + size) ≡ q + size = word_small (q + size) small in
      let some_ : leb total 0 ≡ false = ground arith in
      let l : less q total ≡ true = ground arith in
      let g : (is_negative (q + size) || leb (q + size) total) ≡ true = ground arith in
      rw (at, w, l, some_, v, g) refl

  bounds-last :
      leb total q ≡ false
      → leb (q + size) total ≡ false
      → paginate_bounds total (suc n) size ≡ (q, total)
  unfolding paginate_bounds
  bounds-last inside last =
      let w : word q ≡ q = word_small q (omega arith) in
      let v : word (q + size) ≡ q + size = word_small (q + size) small in
      let some_ : leb total 0 ≡ false = ground arith in
      let l : less q total ≡ true = ground arith in
      let g : (is_negative (q + size) || leb (q + size) total) ≡ false = ground arith in
      rw (at, w, l, some_, v, g) refl

module _ {A : Type 0} where
  nothing : List A
  nothing = []

  take_none : (n : ℕ) → take n nothing ≡ nothing
  unfolding nothing
  take_none zero = refl
  take_none (suc n) = refl

  drop_all : (n : ℕ) (xs : List A) → length xs ≤ n → drop n xs ≡ []
  drop_all zero [] h = refl
  drop_all zero (x ∷ xs) h = absurd (omega arith)
  drop_all (suc n) [] h = refl
  drop_all (suc n) (x ∷ xs) h = drop_all n xs (omega arith)

  take_all : (n : ℕ) (xs : List A) → length xs ≤ n → take n xs ≡ xs
  take_all zero [] h = refl
  take_all zero (x ∷ xs) h = absurd (omega arith)
  take_all (suc n) [] h = refl
  take_all (suc n) (x ∷ xs) h = ap (λ ys. x ∷ ys) (take_all n xs (omega arith))

  length-drop : (n : ℕ) (xs : List A) → length (drop n xs) ≡ length xs - n
  length-drop zero xs = omega arith
  length-drop (suc n) [] = omega arith
  length-drop (suc n) (x ∷ xs) = length-drop n xs ∙ omega arith

  take-append_drop : (n k : ℕ) (xs : List A) → take n xs ++ take k (drop n xs) ≡ take (n + k) xs
  take-append_drop zero k xs = let e : 0 + k ≡ k = omega arith in rw e refl
  take-append_drop (suc n) zero [] = let e : suc n + 0 ≡ suc n = omega arith in rw e refl
  take-append_drop (suc n) (suc k) [] =
      let e : suc n + suc k ≡ suc (n + suc k) = omega arith in rw e refl
  take-append_drop (suc n) k (x ∷ xs) =
      let e : suc n + k ≡ suc (n + k) = omega arith in
      rw e (ap (λ ys. x ∷ ys) (take-append_drop n k xs))

  slice_items-in :
      (xs : List A) (a b : ℕ)
      → length xs < 9223372036854775808
      → a ≤ b
      → b ≤ length xs
      → slice_items xs (a, b) ≡ some (take (b - a) (drop a xs))
  unfolding slice_items
  slice_items-in xs a b small h k =
      let out : (is_negative a || is_negative b || ltb b a || ltb (length xs) b) ≡ false =
        ground arith in
      rw out refl

  past_end :
      (xs : List A) (q size : ℕ)
      → leb (length xs) q ≡ true
      → take (length xs - length xs) (drop (length xs) xs) ≡ take size (drop q xs)
  unfolding nothing
  past_end xs q size past =
      let e : drop (length xs) xs ≡ [] = drop_all (length xs) xs (omega arith) in
      let f : drop q xs ≡ [] = drop_all q xs (ground arith) in
      rw e (rw f (take_none (length xs - length xs) ∙ sym (take_none size)))

  -- The items of a page that begins at `q`.
  page_at :
      (xs : List A) (n q size : ℕ)
      → (suc n - 1) * size ≡ q
      → q + size < 9223372036854775808
      → length xs < 9223372036854775808
      → page_of xs (suc n) size ≡ some (take size (drop q xs))
  unfolding page_of
  page_at xs n q size at small total = elim (Bool-cases (leb (length xs) q)) [
    | inl past ↦ rw (bounds-past (length xs) n q size at small total past) (
        slice_items-in xs (length xs) (length xs) total (omega arith) (omega arith)
        ∙ ap some (past_end xs q size past))
    | inr inside ↦ elim (Bool-cases (leb (q + size) (length xs))) [
      | inl full ↦
          let e : q + size - q ≡ size = omega arith in
          rw (bounds-full (length xs) n q size at small total inside full)
            (slice_items-in xs q (q + size) total (omega arith) (ground arith) ∙ rw e refl)
      | inr last ↦ rw (bounds-last (length xs) n q size at small total inside last) (
          slice_items-in xs q (length xs) total (ground arith) (omega arith)
          ∙ ap some (
              take_all (length xs - q) (drop q xs) (rw (length-drop q xs) (omega arith))
              ∙ sym (take_all size (drop q xs) (rw (length-drop q xs) (ground arith)))))
    ]
  ]

  -- The first pages, one after the other.
  abbrev pub first_pages : List A → ℕ → ℕ → Option (List A)
  first_pages xs size zero = some []
  first_pages xs size (suc n) =
      on_some (first_pages xs size n) none
        λ before. on_some (page_of xs (suc n) size) none λ page. some (before ++ page)

  -- The pages cut the list into consecutive pieces: the first pages, taken one after the other, are
  -- as many of the first items as they have room for, none of them panics, and so no item is lost
  -- or shown twice. The list and the room are smaller than 2^63.
  pub first_pages-take :
      (xs : List A) (size n : ℕ)
      → n * size < 9223372036854775808
      → length xs < 9223372036854775808
      → first_pages xs size n ≡ some (take (n * size) xs)
  first_pages-take xs size zero small total = let e : 0 * size ≡ 0 = omega arith in rw e refl
  first_pages-take xs size (suc n) small total =
      let e : suc n * size ≡ n * size + size = grind arith in
      let m : suc n - 1 ≡ n = omega arith in
      let le : n * size < 9223372036854775808 = omega (arith, e) in
      rw (first_pages-take xs size n le total) (
        rw (page_at xs n (n * size) size (ap (λ k. k * size) m) (omega (arith, e)) total)
          (ap some (take-append_drop (n * size) size xs) ∙ rw e refl))
