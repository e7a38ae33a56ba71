-- ===== src/Store/Calls.antt =====
-- The store under many requests: each method runs in its critical section, so what a set of
-- concurrent requests does is some sequence of calls, each with its own clock and identifiers.
pub mod Frame
use visto_easy.Prelude.{◌≡◌, Bool, String, List, [], ◌∷◌, none}
use visto_easy.Prelude.Clock.{Env}
use visto_easy.Prelude.Dict.{lookup}
use visto_easy.Model.{Fields, StatoPratica, Pratica, Documento}
use visto_easy.Store.State.{MemoryStore}
use visto_easy.Store.Pratiche.{
  create_pratica, update_pratica_as_draft, delete_pratica_as_draft, change_pratica_state,
  submit_pratica,
}
use visto_easy.Store.Documenti.{add_documento, delete_documento}
use visto_easy.Store.Note.{assign_operatore, add_nota, request_documento}

-- The methods that write pratiche, with the arguments of a call.
pub data Call : Type 0 where
  creates : Pratica → String → Call
  patches : String → String → Fields → Call
  deletes : String → String → Call
  submits : String → String → Call
  changes : String → String → StatoPratica → String → Call
  adds_documento : String → Documento → Call
  deletes_documento : String → String → Call
  assigns : String → String → String → Call
  notes : String → String → String → Bool → Call
  requests : String → String → String → String → Call

unfoldable pub call : Env → Call → MemoryStore → MemoryStore
call e (creates p actor) s = (create_pratica e p actor s).0
call e (patches id user d) s = (update_pratica_as_draft e id user d s).0
call e (deletes id user) s = (delete_pratica_as_draft id user s).0
call e (submits id user) s = (submit_pratica e id user s).0
call e (changes id actor to note) s = (change_pratica_state e id actor to note s).0
call e (adds_documento id d) s = (add_documento e id d s).0
call e (deletes_documento id doc) s = (delete_documento e id doc s).0
call e (assigns id operator actor) s = (assign_operatore e id operator actor s).0
call e (notes id actor message internal) s = (add_nota e id actor message internal s).0
call e (requests id actor documento note) s = (request_documento e id actor documento note s).0

unfoldable pub run : List (Env × Call) → MemoryStore → MemoryStore
unfolding call
run [] s = s
run ((e, c) ∷ cs) s = run cs (call e c s)

-- What package uuid and the HTTP layer promise of a creation: the identifier is not in use, and
-- the dates of the later life are not set.
abbrev pub IsFresh : Env → Call → MemoryStore → Type 0
IsFresh e (creates p actor) s =
    (lookup (e.uuid 0) s.pratiche ≡ none) × (p.inviato_il ≡ none) × (p.completato_il ≡ none)
IsFresh e _ s = Unit

abbrev pub AreFresh : List (Env × Call) → MemoryStore → Type 0
AreFresh [] s = Unit
AreFresh ((e, c) ∷ cs) s = IsFresh e c s × AreFresh cs (call e c s)
