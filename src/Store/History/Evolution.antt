-- ===== src/Store/History/Evolution.antt =====
-- Evolution composes, and each way in which the methods change a pratica is one.
use mathlib.Core.List.{append-nil, append_assoc}
use visto_easy.Prelude.{◌≡◌, refl, sym, ◌∙◌, ap, ◌≢◌, true, String, List, [], ◌∷◌, ◌++◌, arith}
use visto_easy.Prelude.Clock.{Time}
use visto_easy.Model.{StatoPratica, Pratica, EventoPratica}
use visto_easy.Store.Pratiche.{allowed_transition, moved}
use visto_easy.Store.Pratiche.Transitions.{
  Follows, done, stay, move, Follows-append, IsTerminal, edge-IsTerminal,
}
use visto_easy.Store.History.{Snapshot, snapshot, replay_event, replay, Evolves}

pub replay-append :
    (v : Snapshot) (es fs : List EventoPratica) → replay v (es ++ fs) ≡ replay (replay v es) fs
unfolding replay
replay-append v [] fs = refl
replay-append v (e ∷ es) fs = replay-append (replay_event v e) es fs

pub Evolves-refl : (p : Pratica) → Evolves p p
unfolding replay
Evolves-refl p = record {
  added = [];
  grown = sym (append-nil p.eventi);
  path = done;
  replayed = refl;
  same_id = refl;
  same_codice = refl;
  same_owner = refl;
}

pub Evolves-trans : {p q r : Pratica} → Evolves p q → Evolves q r → Evolves p r
Evolves-trans {p} {q} {r} f g = record {
  added = f.added ++ g.added;
  grown = g.grown ∙ (ap (λ l. l ++ g.added) f.grown ∙ append_assoc p.eventi f.added g.added);
  path = Follows-append f.path g.path;
  replayed =
      g.replayed
      ∙ (ap (λ v. replay v g.added) f.replayed ∙ sym (replay-append (snapshot p) f.added g.added));
  same_id = g.same_id ∙ f.same_id;
  same_codice = g.same_codice ∙ f.same_codice;
  same_owner = g.same_owner ∙ f.same_owner;
}

-- A change of state along an edge.
pub moved-Evolves :
    (uuid id actor : String) (next : StatoPratica) (note : String) (now : Time) (p : Pratica)
    → allowed_transition p.stato next ≡ true
    → Evolves p (moved uuid id actor next note now p)
unfolding replay
moved-Evolves uuid id actor next note now p h = record {
  added = _;
  grown = refl;
  path = move refl refl h done;
  replayed = ground arith;
  same_id = refl;
  same_codice = refl;
  same_owner = refl;
}

-- An event of another kind, whatever else of the pratica changes with it.
pub logged-Evolves :
    (p q : Pratica) (e : EventoPratica)
    → e.tipo_evento ≢ "STATO_CAMBIATO"
    → q.eventi ≡ p.eventi ++ e ∷ []
    → snapshot q ≡ snapshot p
    → q.id ≡ p.id
    → q.codice ≡ p.codice
    → q.utente_id ≡ p.utente_id
    → Evolves p q
unfolding replay
logged-Evolves p q e n grown same i c o = record {
  added = e ∷ [];
  grown = grown;
  path = rw (ap (λ (v : Snapshot). v.stato) same) (stay n done);
  replayed = ground arith;
  same_id = i;
  same_codice = c;
  same_owner = o;
}

-- A change that logs nothing.
pub silent-Evolves :
    (p q : Pratica)
    → q.eventi ≡ p.eventi
    → snapshot q ≡ snapshot p
    → q.id ≡ p.id
    → q.codice ≡ p.codice
    → q.utente_id ≡ p.utente_id
    → Evolves p q
unfolding replay
silent-Evolves p q grown same i c o = record {
  added = [];
  grown = grown ∙ sym (append-nil p.eventi);
  path = rw (ap (λ (v : Snapshot). v.stato) same) done;
  replayed = same;
  same_id = i;
  same_codice = c;
  same_owner = o;
}

pub Follows-IsTerminal :
    {a b : StatoPratica} {es : List EventoPratica} → Follows a es b → IsTerminal a → b ≡ a
Follows-IsTerminal done h = refl
Follows-IsTerminal (stay n f) h = Follows-IsTerminal f h
Follows-IsTerminal {a} (move {e = e} t d k f) h = cc (edge-IsTerminal a e.a_stato h)
