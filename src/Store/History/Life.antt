-- ===== src/Store/History/Life.antt =====
-- The life of a pratica of internal/store/memory.go, seen over any sequence of calls.
use visto_easy.Prelude.{
  ◌≡◌, refl, ap, ◌≢◌, true, false, String, List, [], ◌∷◌, some, arith, inl, inr, Bool-cases, ◌==◌,
}
use visto_easy.Prelude.Clock.{Env}
use visto_easy.Prelude.Dict.{lookup, lookup-insert, lookup-erase}
use visto_easy.Model.{StatoPratica, bozza, Pratica, EventoPratica}
use visto_easy.Store.State.{MemoryStore, empty_store}
use visto_easy.Store.Pratiche.{allowed_transition}
use visto_easy.Store.Pratiche.Transitions.{
  Follows, done, stay, move, is_paid, HasPayment, Follows-HasPayment, later, IsTerminal,
}
use visto_easy.Store.Calls.{Call, call, run, AreFresh}
use visto_easy.Store.History.{Evolves, Effect, keep, create, update, delete, Effects, stop, next}
use visto_easy.Store.History.Evolution.{Evolves-refl, Evolves-trans, Follows-IsTerminal}
use visto_easy.Store.History.Runs.{HasHistory, run-IsRecorded, empty-IsRecorded, call-Effects}

-- The log of a pratica tells its whole life: after any sequence of calls of the methods that
-- write pratiche, from an empty store, where each creation has an identifier in no use and is of a
-- pratica with no date of submission and none of completion, every pratica in the store has the
-- identifier of its key and a log that begins with its creation, in which every further change of
-- state follows an edge of allowedTransitions from where the one before ended, beginning at BOZZA
-- and ending in the pratica's state, and a replay of which gives its state, submission date and
-- completion date.
pub run-HasHistory :
    (cs : List (Env × Call)) (id : String) (p : Pratica)
    → AreFresh cs empty_store
    → lookup id (run cs empty_store).pratiche ≡ some p
    → HasHistory id p
run-HasHistory cs id p fresh found =
    (run-IsRecorded cs empty_store fresh empty-IsRecorded).history id p found

-- No visa without a payment: after any sequence of calls of the methods that write pratiche, from
-- an empty store, where each creation has an identifier in no use and is of a pratica with no date
-- of submission and none of completion, a pratica whose state is PAGAMENTO_RICEVUTO,
-- VISTO_IN_ELABORAZIONE, VISTO_EMESSO or COMPLETATA has in its log an event that moved it from
-- ATTENDE_PAGAMENTO to PAGAMENTO_RICEVUTO.
pub run-HasPayment :
    (cs : List (Env × Call)) (id : String) (p : Pratica)
    → AreFresh cs empty_store
    → lookup id (run cs empty_store).pratiche ≡ some p
    → is_paid p.stato ≡ true
    → HasPayment p.eventi
run-HasPayment cs id p fresh found paid =
    let h = run-HasHistory cs id p fresh found in
    rw (h.logged) (later (Follows-HasPayment h.path refl paid))

bozza-no-edge : (a : StatoPratica) → allowed_transition a bozza ≡ false
unfolding allowed_transition
bozza-no-edge a = ground arith

Follows-ne-bozza :
    {a b : StatoPratica} {es : List EventoPratica} → Follows a es b → a ≢ bozza → b ≢ bozza
Follows-ne-bozza done n = n
Follows-ne-bozza (stay k f) n = Follows-ne-bozza f n
Follows-ne-bozza {a} (move {e = e} t d h f) n =
    Follows-ne-bozza f λ to. cc (bozza-no-edge a, ap (allowed_transition a) to)

-- A pratica that is there stays there and evolves, unless it is a draft.
abbrev pub Survives : String → Pratica → MemoryStore → Type 0
Survives id p t = (q : Pratica) × (lookup id t.pratiche ≡ some q) × Evolves p q

Effect-Survives :
    {s t : MemoryStore} (id : String) (p : Pratica)
    → Effect s t
    → lookup id s.pratiche ≡ some p
    → p.stato ≢ bozza
    → Survives id p t
Effect-Survives id p (keep e) found n = (p, rw e found, Evolves-refl p)
Effect-Survives {s} id p (create i q absent k e) found n =
    (p, ground (arith, lookup-insert id i q s.pratiche), Evolves-refl p)
Effect-Survives {s} id p (update i r q at v e) found n = elim (Bool-cases (i == id)) [
  | inl same ↦
      let old : r ≡ p = ground arith in
      (q, ground (arith, lookup-insert id i q s.pratiche), rw old at v)
  | inr other ↦ (p, ground (arith, lookup-insert id i q s.pratiche), Evolves-refl p)
]
Effect-Survives {s} id p (delete i r at d e) found n =
    (p, ground (arith, lookup-erase id i s.pratiche), Evolves-refl p)

Effects-Survives :
    {s t : MemoryStore} (id : String) (p : Pratica)
    → Effects s t
    → lookup id s.pratiche ≡ some p
    → p.stato ≢ bozza
    → Survives id p t
Effects-Survives id p stop found n = (p, found, Evolves-refl p)
Effects-Survives id p (next f e) found n =
    let (q, at, v) = Effects-Survives id p f found n in
    let (r, to, w) = Effect-Survives id q e at (Follows-ne-bozza v.path n) in
    (r, to, Evolves-trans v w)

-- A pratica that has left BOZZA is never lost: after any sequence of calls, in any store, where
-- each creation has an identifier in no use and is of a pratica with no date of submission and
-- none of completion, it is still in the store under its key, with the same identifier, code and
-- owner, its log has at most grown at the end, and what was added follows the diagram and explains
-- the new state and dates.
pub run-Survives :
    (cs : List (Env × Call)) (s : MemoryStore) (id : String) (p : Pratica)
    → AreFresh cs s
    → lookup id s.pratiche ≡ some p
    → p.stato ≢ bozza
    → Survives id p (run cs s)
unfolding run
run-Survives [] s id p fresh found n = (p, found, Evolves-refl p)
run-Survives ((e, c) ∷ cs) s id p (f, fs) found n =
    let (q, at, v) = Effects-Survives id p (call-Effects e c s f) found n in
    let (r, to, w) = run-Survives cs (call e c s) id q fs at (Follows-ne-bozza v.path n) in
    (r, to, Evolves-trans v w)

IsTerminal-ne-bozza : (a : StatoPratica) → IsTerminal a → a ≢ bozza
IsTerminal-ne-bozza a h = ground arith

-- REJECTED, COMPLETED and CANCELLED are final: a pratica in RIFIUTATA, COMPLETATA or ANNULLATA is
-- in the store and in the same state after any sequence of calls, where each creation has an
-- identifier in no use and is of a pratica with no date of submission and none of completion.
pub run-IsTerminal :
    (cs : List (Env × Call)) (s : MemoryStore) (id : String) (p : Pratica)
    → AreFresh cs s
    → lookup id s.pratiche ≡ some p
    → IsTerminal p.stato
    → (q : Pratica) × (lookup id (run cs s).pratiche ≡ some q) × (q.stato ≡ p.stato)
run-IsTerminal cs s id p fresh found h =
    let (q, at, v) = run-Survives cs s id p fresh found (IsTerminal-ne-bozza p.stato h) in
    (q, at, Follows-IsTerminal v.path h)
