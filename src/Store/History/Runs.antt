-- ===== src/Store/History/Runs.antt =====
-- What holds of every pratica after any sequence of calls.
use visto_easy.Prelude.{
  ◌≡◌, sym, ◌∙◌, ap, String, List, [], ◌∷◌, ◌++◌, none, some, arith, inl, inr, Bool-cases, ◌==◌,
  eq_of_==,
}
use visto_easy.Prelude.Clock.{Env}
use visto_easy.Prelude.Dict.{lookup, insert, lookup-insert, lookup-erase}
use visto_easy.Model.{bozza, Pratica, EventoPratica}
use visto_easy.Store.State.{MemoryStore, empty_store}
use visto_easy.Store.Pratiche.Transitions.{Follows, done, Follows-append}
use visto_easy.Store.Calls.{
  Call, creates, patches, deletes, submits, changes, adds_documento, deletes_documento, assigns,
  notes, requests, call, run, IsFresh, AreFresh,
}
use visto_easy.Store.History.{
  Snapshot, snapshot, replay, Evolves, IsNew, Effect, keep, create, update, delete, Effects, stop,
  next,
}
use visto_easy.Store.History.Evolution.{replay-append}
use visto_easy.Store.History.Methods.{
  create_pratica-Effect, update_pratica_as_draft-Effect, delete_pratica_as_draft-Effect,
  change_pratica_state-Effect, submit_pratica-Effect, add_documento-Effect, delete_documento-Effect,
  assign_operatore-Effect, add_nota-Effect, request_documento-Effects,
}

abbrev pub draft : Snapshot
draft = record { stato = bozza; inviato_il = none; completato_il = none }

-- The log tells the whole life: it begins with the creation, every later change of state follows
-- the diagram from the draft on, and the state and dates are what a replay of the log gives.
pub record HasHistory (id : String) (p : Pratica) : Type 0 where
  pub first : EventoPratica
  pub rest : List EventoPratica
  pub logged : p.eventi ≡ first ∷ rest
  pub created : first.tipo_evento ≡ "PRATICA_CREATA"
  pub path : Follows bozza rest p.stato
  pub replayed : snapshot p ≡ replay draft rest
  pub keyed : p.id ≡ id

pub record IsRecorded (s : MemoryStore) : Type 0 where
  pub history : (id : String) (p : Pratica) → lookup id s.pratiche ≡ some p → HasHistory id p

IsNew-HasHistory : (id : String) (q : Pratica) → IsNew id q → HasHistory id q
unfolding replay
IsNew-HasHistory id q n = record {
  first = n.first;
  rest = [];
  logged = n.logged;
  created = n.created;
  path = rw (n.draft) done;
  replayed = ground arith;
  keyed = n.keyed;
}

Evolves-HasHistory : (id : String) (p q : Pratica) → HasHistory id p → Evolves p q → HasHistory id q
Evolves-HasHistory id p q h v = record {
  first = h.first;
  rest = h.rest ++ v.added;
  logged = v.grown ∙ ap (λ l. l ++ v.added) h.logged;
  created = h.created;
  path = Follows-append h.path v.path;
  replayed =
      v.replayed
      ∙ (ap (λ w. replay w v.added) h.replayed ∙ sym (replay-append draft h.rest v.added));
  keyed = v.same_id ∙ h.keyed;
}

-- A write at one key, where the value written has the property that all values have.
insert-All :
    (P : String → Pratica → Type 0) (s t : MemoryStore) (id : String) (q : Pratica)
    → t.pratiche ≡ insert id q s.pratiche
    → P id q
    → ((j : String) (p : Pratica) → lookup j s.pratiche ≡ some p → P j p)
    → (j : String) (p : Pratica) → lookup j t.pratiche ≡ some p
    → P j p
insert-All P s t id q e h all j p found = elim (Bool-cases (id == j)) [
  | inl same ↦
      let at : q ≡ p = ground (arith, lookup-insert j id q s.pratiche) in
      rw (← at) (rw (eq_of_== id j same) at h)
  | inr other ↦ all j p (ground (arith, lookup-insert j id q s.pratiche))
]

Effect-IsRecorded : {s t : MemoryStore} → Effect s t → IsRecorded s → IsRecorded t
Effect-IsRecorded (keep e) r = record { history = λ id p found. r.history id p (rw (← e) found) }
Effect-IsRecorded {s} {t} (create id q absent n e) r = record {
  history = insert-All HasHistory s t id q e (IsNew-HasHistory id q n) r.history;
}
Effect-IsRecorded {s} {t} (update id p q found v e) r = record {
  history =
      insert-All HasHistory s t id q e (Evolves-HasHistory id p q (r.history id p found) v)
        r.history;
}
Effect-IsRecorded {s} {t} (delete id p found d e) r = record {
  history = λ j q at. r.history j q (ground (arith, lookup-erase j id s.pratiche));
}

Effects-IsRecorded : {s t : MemoryStore} → Effects s t → IsRecorded s → IsRecorded t
Effects-IsRecorded stop r = r
Effects-IsRecorded (next f e) r = Effect-IsRecorded e (Effects-IsRecorded f r)

pub call-Effects : (e : Env) (c : Call) (s : MemoryStore) → IsFresh e c s → Effects s (call e c s)
unfolding call
call-Effects e (creates p actor) s (f, i, c) = next stop (create_pratica-Effect e p actor s f i c)
call-Effects e (patches id user d) s h = next stop (update_pratica_as_draft-Effect e id user d s)
call-Effects e (deletes id user) s h = next stop (delete_pratica_as_draft-Effect e id user s)
call-Effects e (submits id user) s h = next stop (submit_pratica-Effect e id user s)
call-Effects e (changes id actor to note) s h =
    next stop (change_pratica_state-Effect e id actor to note s)
call-Effects e (adds_documento id d) s h = next stop (add_documento-Effect e id d s)
call-Effects e (deletes_documento id doc) s h = next stop (delete_documento-Effect e id doc s)
call-Effects e (assigns id operator actor) s h =
    next stop (assign_operatore-Effect e id operator actor s)
call-Effects e (notes id actor m i) s h = next stop (add_nota-Effect e id actor m i s)
call-Effects e (requests id actor d n) s h = request_documento-Effects e id actor d n s

pub run-IsRecorded :
    (cs : List (Env × Call)) (s : MemoryStore)
    → AreFresh cs s
    → IsRecorded s
    → IsRecorded (run cs s)
unfolding run
run-IsRecorded [] s f r = r
run-IsRecorded ((e, c) ∷ cs) s (f, fs) r =
    run-IsRecorded cs (call e c s) fs (Effects-IsRecorded (call-Effects e c s f) r)

pub empty-IsRecorded : IsRecorded empty_store
unfolding lookup
empty-IsRecorded = record { history = λ id p found. cc }
