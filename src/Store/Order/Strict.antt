-- ===== src/Store/Order/Strict.antt =====
-- Lists of internal/store that are sorted by a time: where no two elements have the same time, the
-- order is determined.
use mathlib.Core.List.{Perm, Memᴰ}
use mathlib.Core.List.Perm
use mathlib.Core.Logic.{∥∥₁_elim}
use visto_easy.Prelude.{◌<◌, ◌≤◌, ◌≡◌, refl, sym, List, [], ◌∷◌, arith}
use visto_easy.Prelude.Clock.{Time}
use visto_easy.Store.Order.{AllBefore, IsLatestFirst}

module _ {A : Type 0} (time : A → Time) where
  abbrev AllEarlier : Time → List A → Type 0
  AllEarlier t [] = Unit
  AllEarlier t (b ∷ bs) = (time b < t) × AllEarlier t bs

  -- Every element is later than those that stand behind it.
  abbrev pub IsStrict : List A → Type 0
  IsStrict [] = Unit
  IsStrict (b ∷ bs) = AllEarlier (time b) bs × IsStrict bs

  AllEarlier-Memᴰ : (t : Time) {a : A} (bs : List A) → AllEarlier t bs → Memᴰ a bs → time a < t
  AllEarlier-Memᴰ t [] _ m = elim m [ ]
  AllEarlier-Memᴰ t (b ∷ bs) (h, hs) (Memᴰ.head e) = rw e h
  AllEarlier-Memᴰ t (b ∷ bs) (h, hs) (Memᴰ.tail m) = AllEarlier-Memᴰ t bs hs m

  AllBefore-Memᴰ : (t : Time) {a : A} (bs : List A) → AllBefore time t bs → Memᴰ a bs → time a ≤ t
  AllBefore-Memᴰ t [] _ m = elim m [ ]
  AllBefore-Memᴰ t (b ∷ bs) (h, hs) (Memᴰ.head e) = rw e h
  AllBefore-Memᴰ t (b ∷ bs) (h, hs) (Memᴰ.tail m) = AllBefore-Memᴰ t bs hs m

  same_head :
      (a b : A) (as' bs : List A)
      → AllBefore time (time a) as'
      → AllEarlier (time b) bs
      → Memᴰ a (b ∷ bs)
      → Memᴰ b (a ∷ as')
      → a ≡ b
  same_head a b as' bs h k (Memᴰ.head e) n = e
  same_head a b as' bs h k (Memᴰ.tail m) (Memᴰ.head e) = sym e
  same_head a b as' bs h k (Memᴰ.tail m) (Memᴰ.tail n) =
      let earlier = AllEarlier-Memᴰ (time b) bs k m in
      let before' = AllBefore-Memᴰ (time a) as' h n in absurd (omega arith)

  -- Two lists of the same elements, both latest first, are one.
  pub IsLatestFirst-unique :
      IsSet A → (as' bs : List A) → IsLatestFirst time as' → IsStrict bs → Perm as' bs → as' ≡ bs
  IsLatestFirst-unique set [] bs h k p = Perm.nil-eq p
  IsLatestFirst-unique set (a ∷ as') [] h k p = Perm.eq-nil p
  IsLatestFirst-unique set (a ∷ as') (b ∷ bs) (h, hs) (k, ks) p =
      let same : a ≡ b = ∥∥₁_elim ((Perm.mem_iff p).0 ∣ Memᴰ.head refl ∣₁) (set a b) λ m.
        ∥∥₁_elim ((Perm.mem_iff p).1 ∣ Memᴰ.head refl ∣₁) (set a b)
          λ n. same_head a b as' bs h k m n in
      let p' : Perm as' bs = Perm.cons_inv (rw same at p) in
      rw (same, IsLatestFirst-unique set as' bs hs ks p') refl
