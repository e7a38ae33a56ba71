-- ===== src/Http/Pratiche/Listing.antt =====
-- Which pratiche handleListMiePratiche of internal/httpapi/server.go lists.
use mathlib.Core.List.{Memᴰ}
use visto_easy.Prelude.{
  ap, ◌∙◌, eq_of_==, ==_refl, ◌≡◌, refl, ◌↔◌, inl, inr, true, String, List, [], ◌∷◌, some,
  Bool-cases, ◌==◌,
}
use visto_easy.Prelude.Clock.{Time}
use visto_easy.Prelude.Dict.{values}
use visto_easy.Model.{Pratica}
use visto_easy.Store.State.{MemoryStore}
use visto_easy.Store.Order.{
  IsLatestFirst, latest_first, latest_first-IsLatestFirst, Memᴰ-latest_first, latest_first-Memᴰ,
}
use visto_easy.Store.Pratiche.{of_user, list_pratiche_by_user}
use visto_easy.Http.Reply.{Claims, pratiche_body, write_json}
use visto_easy.Http.Access.{is_richiedente}
use visto_easy.Http.Pratiche.{handle_list_mie_pratiche}

Memᴰ-of_user :
    (user : String) (p : Pratica) (ps : List Pratica)
    → Memᴰ p (of_user user ps)
    → Memᴰ p ps × (p.utente_id ≡ user)
unfolding of_user
Memᴰ-of_user user p [] m = elim m [ ]
Memᴰ-of_user user p (q ∷ ps) m = elim (Bool-cases (q.utente_id == user)) [
  | inl own ↦ at_head own (rw own at m) (Memᴰ-of_user user p ps)
  | inr other ↦ let (n, h) = Memᴰ-of_user user p ps (rw other at m) in (Memᴰ.tail n, h)
]
  where
    at_head :
        (q.utente_id == user) ≡ true
        → Memᴰ p (q ∷ of_user user ps)
        → (Memᴰ p (of_user user ps) → Memᴰ p ps × (p.utente_id ≡ user))
        → Memᴰ p (q ∷ ps) × (p.utente_id ≡ user)
    at_head own (Memᴰ.head e) f =
        (Memᴰ.head e, ap (λ (r : Pratica). r.utente_id) e ∙ eq_of_== q.utente_id user own)
    at_head own (Memᴰ.tail k) f = let (n, h) = f k in (Memᴰ.tail n, h)

of_user-Memᴰ :
    (user : String) (p : Pratica) (ps : List Pratica)
    → p.utente_id ≡ user
    → Memᴰ p ps
    → Memᴰ p (of_user user ps)
unfolding of_user
of_user-Memᴰ user p [] own m = m
of_user-Memᴰ user p (q ∷ ps) own (Memᴰ.head e) =
    let same : (q.utente_id == user) ≡ true = rw (← e) (rw own (==_refl user)) in
    rw same (Memᴰ.head e)
of_user-Memᴰ user p (q ∷ ps) own (Memᴰ.tail m) = elim (Bool-cases (q.utente_id == user)) [
  | inl h ↦ rw h (Memᴰ.tail (of_user-Memᴰ user p ps own m))
  | inr h ↦ rw h (of_user-Memᴰ user p ps own m)
]

-- An applicant's list is complete and shows nothing else: handleListMiePratiche replies 200 to an
-- applicant with a list, latest first, that has a pratica exactly when it is in the store and its
-- owner is the caller; the store stays as it is.
pub list_mie_pratiche-own :
    (c : Claims) (s : MemoryStore)
    → is_richiedente c ≡ true
    → let (s', reply) = handle_list_mie_pratiche (some c) s in
      (ps : List Pratica) × (s' ≡ s)
      × (reply ≡ write_json 200 (pratiche_body ps))
      × IsLatestFirst (λ (p : Pratica). p.creato_il) ps
      × ((p : Pratica) → Memᴰ p ps ↔ (Memᴰ p (values s.pratiche) × (p.utente_id ≡ c.user_id)))
unfolding handle_list_mie_pratiche list_pratiche_by_user
list_mie_pratiche-own c s applicant =
    let all = values s.pratiche in
    let mine = of_user c.user_id all in
    let time : Pratica → Time = λ p. p.creato_il in
    (
      latest_first time mine,
      rw applicant refl,
      rw applicant refl,
      latest_first-IsLatestFirst time mine,
      λ p. (
        λ m. Memᴰ-of_user c.user_id p all (Memᴰ-latest_first time mine m),
        λ h. latest_first-Memᴰ time mine (of_user-Memᴰ c.user_id p all h.1 h.0),
      ),
    )
