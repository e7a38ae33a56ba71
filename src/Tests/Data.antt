-- ===== src/Tests/Data.antt =====
-- The inputs that the tests share: a small store, two callers, and an outside world.
use Prim.Native.String.{◌++◌}
use visto_easy.Prelude.{
  if◌then◌else◌, ℕ, zero, suc, ◌+◌, ◌*◌, true, false, String, List, [], ◌∷◌, none, some, ◌==◌,
}
use visto_easy.Prelude.Int.{pos}
use visto_easy.Prelude.Clock.{Time, Env, hour}
use visto_easy.Model.{
  end, richiedente, approvata, StatoPratica, PagamentoStato, Utente, Pratica, Pagamento, Documento,
  RefreshSession,
}
use visto_easy.Store.State.{MemoryStore, empty_store}
use visto_easy.Store.Users.{zero_utente}
use visto_easy.Store.Calls.{Call, creates, submits, changes}
use visto_easy.Http.Reply.{Claims, Client}
use visto_easy.Http.Pratiche.{requested}
use visto_easy.Http.Tokens.{Crypto, TokenManager}
use visto_easy.Http.RateLimit.{SimpleRateLimiter}
use visto_easy.Http.LoginLock.{LoginLockTracker}
use visto_easy.Http.Auth.{Server}
use visto_easy.Http.Recovery.{Outside}
use visto_easy.Http.IpPolicy.{NetSyntax}

abbrev primed : String → ℕ → String
primed p zero = p
primed p (suc n) = primed p n ++ "'"

-- The clock from a time on, and identifiers that begin with a text.
abbrev pub at : Time → String → Env
at t p = record { now = λ i. t + i; uuid = λ i. primed p i }

abbrev pub anna : Claims
anna = record {
  user_id = "anna";
  role = "RICHIEDENTE";
  type = "access";
  id = "";
  expires_at = 0;
  issued_at = 0;
}

abbrev pub boss : Claims
boss = record anna { user_id = "boss"; role = "ADMIN" }

abbrev pub client : Client
client = record { ip = "10.0.0.1"; user_agent = "test" }

abbrev pub asked : Pratica
asked = requested anna (record {
  tipo_visto = "turismo";
  paese_dest = "JP";
  dati_anagrafici = end;
  dati_passaporto = end;
})

-- A pratica of Anna's in a state, and the store that has it.
abbrev pub pratica_in : StatoPratica → Pratica
pratica_in stato = record asked { id = "p"; utente_id = "anna"; stato = stato }

abbrev pub holding_in : StatoPratica → MemoryStore
holding_in stato = record empty_store { pratiche = ("p", pratica_in stato) ∷ [] }

abbrev pub payment_in : PagamentoStato → Pagamento
payment_in stato = record {
  id = "pay";
  pratica_id = "p";
  provider = "stripe";
  provider_session_id = "";
  token = "tok";
  importo = pos 100;
  valuta = "EUR";
  stato = stato;
  link_pagamento = "";
  scadenza = 0;
  pagato_il = none;
  creato_il = 0;
}

-- The pratica waits for the payment, or the payment stands alone in the store.
abbrev pub billed : PagamentoStato → StatoPratica → MemoryStore
billed pagamento stato = record (holding_in stato) { payments = ("pay", payment_in pagamento) ∷ [] }

abbrev pub scan : Documento
scan = record {
  id = "d";
  pratica_id = "p";
  tipo = "passaporto";
  nome_file = "a.pdf";
  mime_type = "application/pdf";
  dimensione = pos 10;
  stato_validazione = "";
  note_validazione = "";
  s3_key = "";
  caricato_il = 0;
}

-- An outside world in which every text is a token of the second caller's session, and a password
-- is its own hash.
abbrev pub session_claims : Claims
session_claims = record {
  user_id = "anna";
  role = "RICHIEDENTE";
  type = "refresh";
  id = "r";
  expires_at = 0;
  issued_at = 0;
}

abbrev pub manager : TokenManager
manager = record {
  jwt = record {
    signed_string = λ secret c. c.id;
    parse_with_claims = λ secret now token. some session_claims;
  };
  secret = "s";
}

abbrev pub crypto : Crypto
crypto = record {
  compare_hash_and_password = λ hash password. hash == password;
  generate_from_password = λ password. some password;
  validate_custom = λ code secret now. code == secret;
  generate = λ issuer account. some (account, issuer);
}

-- A bcrypt that refuses every password.
abbrev pub no_hash : Crypto
no_hash = record crypto { generate_from_password = λ password. none }

abbrev pub session : RefreshSession
session = record {
  id = "r";
  user_id = "anna";
  role = "RICHIEDENTE";
  revoked = false;
  revoked_at = none;
  replaced_by = "";
  expires_at = 1000 * hour;
  creato_il = 0;
  aggiornato_il = 0;
}

abbrev pub user : Utente
user = record zero_utente {
  id = "anna";
  email = "anna@x.it";
  password_hash = "Segreta-123";
  ruolo = richiedente;
  attivo = true;
  email_verificata = true;
}

-- A store with the user and the session.
abbrev pub open_store : MemoryStore
open_store = record empty_store {
  users = ("anna", user) ∷ [];
  by_email = ("anna@x.it", "anna") ∷ [];
  refresh_sessions = ("r", session) ∷ [];
}

abbrev pub limiter : SimpleRateLimiter
limiter = record { limit = 2; window = 60; bucket_by_k = [] }

abbrev pub tracker : LoginLockTracker
tracker = record { max_attempts = 3; window = 60; entries = [] }

abbrev pub server : MemoryStore → Server
server s = record { store = s; auth_rl = limiter; login_lt = tracker }

abbrev pub outside : Outside
outside = record {
  mail_fails = λ to. false;
  parse_address = λ text. some text;
  random_token = some "token";
  verify_ttl = pos 30;
}

-- A syntax in which every text but two is an address, the same one, and those two are networks
-- with it.
abbrev pub net : NetSyntax
net = record {
  parse_ip = λ text.
      if text == "10.0.0.0/8"
      then none
      else if text == "10.0.0.1/32"
      then none
      else some 0xFFFF0A000001;
  parse_cidr = λ text. some (record {
    address = 0xFFFF0A000001;
    ones = if text == "10.0.0.1/32" then 32 else 8;
    is_short = true;
  });
}

-- The whole life of a pratica up to the payment.
abbrev pub life : List (Env × Call)
life =
    (at 1 "a", creates asked "anna")
    ∷ (at 2 "b", submits "a" "anna")
    ∷ (at 3 "c", changes "a" "boss" StatoPratica.in_lavorazione "")
    ∷ (at 4 "d", changes "a" "boss" approvata "")
    ∷ (at 5 "e", changes "a" "boss" StatoPratica.attende_pagamento "")
    ∷ (at 6 "f", changes "a" "system" StatoPratica.pagamento_ricevuto "")
    ∷ []
