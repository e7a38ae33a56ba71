-- ===== src/Model/Enums.antt =====
-- The string types of internal/model/types.go. Each named constant is a constructor, and a last
-- constructor holds any other text, the empty one included.
use visto_easy.Prelude.{Bool, true, false, String}

pub data Role : Type 0 where
  richiedente operatore supervisore admin : Role
  other_role : String → Role

pub data StatoPratica : Type 0 where
  bozza inviata in_lavorazione integrazione_richiesta sospesa approvata rifiutata : StatoPratica
  attende_pagamento pagamento_ricevuto visto_in_elaborazione visto_emesso completata : StatoPratica
  annullata : StatoPratica
  other_stato : String → StatoPratica

pub data Priorita : Type 0 where
  normale alta urgente : Priorita
  other_priorita : String → Priorita

pub data PagamentoStato : Type 0 where
  pendente completato fallito rimborsato : PagamentoStato
  other_pagamento : String → PagamentoStato

-- `string(role)`
abbrev pub role_name : Role → String
role_name richiedente = "RICHIEDENTE"
role_name operatore = "OPERATORE"
role_name supervisore = "SUPERVISORE"
role_name admin = "ADMIN"
role_name (other_role s) = s

-- `p.Priorita == ""`
abbrev pub is_empty_priorita : Priorita → Bool
is_empty_priorita (other_priorita String.[]) = true
is_empty_priorita _ = false

-- `stato == model.StatoBozza`, and so on for the states that the code compares with.
abbrev pub is_bozza : StatoPratica → Bool
is_bozza bozza = true
is_bozza _ = false

abbrev pub is_inviata : StatoPratica → Bool
is_inviata inviata = true
is_inviata _ = false

abbrev pub is_completata : StatoPratica → Bool
is_completata completata = true
is_completata _ = false

abbrev pub is_in_lavorazione : StatoPratica → Bool
is_in_lavorazione in_lavorazione = true
is_in_lavorazione _ = false

abbrev pub is_sospesa : StatoPratica → Bool
is_sospesa sospesa = true
is_sospesa _ = false

abbrev pub is_completato : PagamentoStato → Bool
is_completato completato = true
is_completato _ = false
