-- ===== src/Store/History.antt =====
-- What the store promises about pratiche, apart from how its methods are written: the log of a
-- pratica determines its state and its dates, and a method does one of four things to the map.
pub mod Evolution
pub mod Methods
pub mod Runs
pub mod Life
use visto_easy.Prelude.{
  ◌≡◌, Bool, String, List, [], ◌∷◌, ◌++◌, Option, none, some, ◌==◌, if◌then◌else◌,
}
use visto_easy.Prelude.Clock.{Time}
use visto_easy.Prelude.Dict.{lookup, insert, erase}
use visto_easy.Model.{StatoPratica, bozza, is_inviata, is_completata, Pratica, EventoPratica}
use visto_easy.Store.State.{MemoryStore}
use visto_easy.Store.Pratiche.Transitions.{Follows}

-- What the log determines.
pub record Snapshot : Type 0 where
  pub stato : StatoPratica
  pub inviato_il : Option Time
  pub completato_il : Option Time

abbrev pub snapshot : Pratica → Snapshot
snapshot p = record { stato = p.stato; inviato_il = p.inviato_il; completato_il = p.completato_il }

-- What one event says: only a change of state counts, and its time is kept for two states.
abbrev pub replay_event : Snapshot → EventoPratica → Snapshot
replay_event v e =
    if e.tipo_evento == "STATO_CAMBIATO"
    then record {
      stato = e.a_stato;
      inviato_il = if is_inviata e.a_stato then some e.creato_il else v.inviato_il;
      completato_il = if is_completata e.a_stato then some e.creato_il else v.completato_il;
    }
    else v

pub replay : Snapshot → List EventoPratica → Snapshot
replay v [] = v
replay v (e ∷ es) = replay (replay_event v e) es

-- One pratica after another: events were added to its log, they follow the diagram, and they
-- explain the new state and dates. Its identity and its owner have stayed.
pub record Evolves (p q : Pratica) : Type 0 where
  pub added : List EventoPratica
  pub grown : q.eventi ≡ p.eventi ++ added
  pub path : Follows p.stato added q.stato
  pub replayed : snapshot q ≡ replay (snapshot p) added
  pub same_id : q.id ≡ p.id
  pub same_codice : q.codice ≡ p.codice
  pub same_owner : q.utente_id ≡ p.utente_id

-- A pratica under its key, as it is created: a draft with one event.
pub record IsNew (id : String) (q : Pratica) : Type 0 where
  pub first : EventoPratica
  pub logged : q.eventi ≡ first ∷ []
  pub created : first.tipo_evento ≡ "PRATICA_CREATA"
  pub draft : q.stato ≡ bozza
  pub keyed : q.id ≡ id
  pub not_sent : q.inviato_il ≡ none
  pub not_closed : q.completato_il ≡ none

-- What a method may do to the pratiche.
pub data Effect (s t : MemoryStore) : Type 0 where
  keep : t.pratiche ≡ s.pratiche → Effect s t
  create :
      (id : String) (q : Pratica)
      → lookup id s.pratiche ≡ none
      → IsNew id q
      → t.pratiche ≡ insert id q s.pratiche
      → Effect s t
  update :
      (id : String) (p q : Pratica)
      → lookup id s.pratiche ≡ some p
      → Evolves p q
      → t.pratiche ≡ insert id q s.pratiche
      → Effect s t
  delete :
      (id : String) (p : Pratica)
      → lookup id s.pratiche ≡ some p
      → p.stato ≡ bozza
      → t.pratiche ≡ erase id s.pratiche
      → Effect s t

-- Any number of effects, one after another.
pub data Effects (s : MemoryStore) : MemoryStore → Type 0 where
  stop : Effects s s
  next : {t u : MemoryStore} → Effects s t → Effect t u → Effects s u
