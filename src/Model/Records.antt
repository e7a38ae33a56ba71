-- ===== src/Model/Records.antt =====
-- The structs of internal/model/types.go, field for field.
use visto_easy.Prelude.{Bool, Option, List, String}
use visto_easy.Prelude.Int.{ℤ}
use visto_easy.Prelude.Clock.{Time}
use visto_easy.Model.Values.{Fields}
use visto_easy.Model.Enums.{Role, StatoPratica, Priorita, PagamentoStato}

pub record Utente : Type 0 where
  pub id : String
  pub email : String
  pub password_hash : String
  pub totp_secret : String
  pub totp_enabled : Bool
  pub nome : String
  pub cognome : String
  pub ruolo : Role
  pub telefono : String
  pub email_verificata : Bool
  pub attivo : Bool
  pub creato_il : Time
  pub aggiornato_il : Time

pub record Documento : Type 0 where
  pub id : String
  pub pratica_id : String
  pub tipo : String
  pub nome_file : String
  pub mime_type : String
  pub dimensione : ℤ
  pub stato_validazione : String
  pub note_validazione : String
  pub s3_key : String
  pub caricato_il : Time

pub record EventoPratica : Type 0 where
  pub id : String
  pub pratica_id : String
  pub attore_id : String
  pub tipo_evento : String
  pub da_stato : StatoPratica
  pub a_stato : StatoPratica
  pub messaggio : String
  pub metadata : Fields
  pub creato_il : Time

pub record Pratica : Type 0 where
  pub id : String
  pub codice : String
  pub utente_id : String
  pub operatore_id : String
  pub tipo_visto : String
  pub paese_dest : String
  pub stato : StatoPratica
  pub priorita : Priorita
  pub note_interne : String
  pub note_richiedente : String
  pub dati_anagrafici : Fields
  pub dati_passaporto : Fields
  pub importo_dovuto : ℤ
  pub valuta : String
  pub creato_il : Time
  pub aggiornato_il : Time
  pub inviato_il : Option Time
  pub completato_il : Option Time
  pub documenti : List Documento
  pub eventi : List EventoPratica

pub record Pagamento : Type 0 where
  pub id : String
  pub pratica_id : String
  pub provider : String
  pub provider_session_id : String
  pub token : String
  pub importo : ℤ
  pub valuta : String
  pub stato : PagamentoStato
  pub link_pagamento : String
  pub scadenza : Time
  pub pagato_il : Option Time
  pub creato_il : Time

pub record RefreshSession : Type 0 where
  pub id : String
  pub user_id : String
  pub role : String
  pub revoked : Bool
  pub revoked_at : Option Time
  pub replaced_by : String
  pub expires_at : Time
  pub creato_il : Time
  pub aggiornato_il : Time

pub record PasswordResetToken : Type 0 where
  pub token : String
  pub purpose : String
  pub user_id : String
  pub email : String
  pub expires_at : Time
  pub used_at : Option Time
  pub creato_il : Time
  pub aggiornato_il : Time

pub record SecurityEvent : Type 0 where
  pub id : String
  pub type : String
  pub outcome : String
  pub email : String
  pub user_id : String
  pub ip : String
  pub user_agent : String
  pub metadata : Fields
  pub creato_il : Time

pub record AuditEvent : Type 0 where
  pub id : String
  pub actor_id : String
  pub actor_role : String
  pub action : String
  pub resource : String
  pub resource_id : String
  pub ip : String
  pub details : Fields
  pub creato_il : Time

pub record BlockedIp : Type 0 where
  pub ip : String
  pub reason : String
  pub blocked_by : String
  pub blocked_at : Time
  pub expires_at : Option Time

pub record AllowedIp : Type 0 where
  pub ip : String
  pub reason : String
  pub allowed_by : String
  pub allowed_at : Time
  pub expires_at : Option Time
