-- ===== src/Db/Documents.antt =====
-- The documents of the Mongo collections, and the database that holds them. An id is a number: ids
-- are only compared, and grow with time. A text that `str` makes of an id is that number again, and
-- a field that may be missing or null is an `Option`.
use mail_tester.Prelude.{ℕ, Bool, Option, Text}
use mail_tester.Time.{DateValue}
use mail_tester.Db.Mongo.{Mongo}
use mail_tester.Processor.Score.{Report}

pub data Status : Type 0 where
  pending received processing analyzed limit expired error : Status

pub record TestEmail : Type 0 where
  pub id : ℕ
  pub to_address : Text
  pub status : Status
  pub created_at : ℕ
  pub expires_at : Option ℕ
  pub created_ip : Option Text
  pub owner_user_id : Option ℕ
  pub api_key_id : Option ℕ
  pub mail_count : ℕ
  pub receiver_at : Option ℕ
  pub last_mail_event_id : Option ℕ
  pub analysis_id : Option ℕ
  pub analyzed_at : Option ℕ
  pub last_error : Option Text

pub data Source : Type 0 where
  received_header missing : Source

pub record Connection : Type 0 where
  pub client_ip : Option Text
  pub helo : Option Text
  pub protocol : Option Text
  pub tls : Bool
  pub tls_protocol : Option Text
  pub tls_cipher : Option Text
  pub source : Source

pub record MailEvent : Type 0 where
  pub id : ℕ
  pub to_address : Text
  pub mail_from : Text
  pub raw_id : ℕ
  pub size : ℕ
  pub received_at : ℕ
  pub connection : Option Connection
  pub subject : Option Text
  pub message_id : Option Text
  pub created_ip : Option Text
  pub owner_user_id : Option ℕ
  pub api_key_id : Option ℕ
  pub analysis_started_at : Option ℕ
  pub analysis_id : Option ℕ
  pub analyzed_at : Option ℕ
  pub last_error : Option Text

pub record Quota : Type 0 where
  pub daily_limit : Option ℕ
  pub daily_used : Option ℕ
  pub reset_at : DateValue

pub record UserQuota : Type 0 where
  pub analyze : Option Quota

pub record User : Type 0 where
  pub id : ℕ
  pub email : Text
  pub password_hash : Option Text
  pub status : Option Text
  pub created_at : Option ℕ
  pub last_login_at : Option ℕ
  pub token_expires_at : Option ℕ
  pub register_ip : Option Text
  pub quota : Option UserQuota

pub record ApiKey : Type 0 where
  pub id : ℕ
  pub user_id : ℕ
  pub name : Text
  pub key_hash : Text
  pub preview : Text
  pub created_at : ℕ
  pub last_used_at : Option ℕ
  pub revoked_at : Option ℕ
  pub created_ip : Option Text
  pub quota : Option Quota

pub record Token : Type 0 where
  pub user_id : ℕ
  pub token : Text
  pub expire_at : DateValue
  pub created_at : ℕ

pub data OwnerType : Type 0 where
  user anonymous : OwnerType

-- A report as `analyze_received_mail` stores it, as far as the program reads it again by more than its
-- key. The document also holds the checks, the meta data and the decoded raw mail.
pub record Analysis : Type 0 where
  pub id : ℕ
  pub report : Report
  pub to_address : Text
  pub received_at : ℕ
  pub sender_domain : Text
  pub sender_ip : Option Text
  pub envelope_from : Text
  pub owner_type : OwnerType
  pub owner_user_id : Option ℕ
  pub owner_ip : Option Text
  pub mail_event_id : ℕ

pub record LogDoc : Type 0 where
  pub timestamp : ℕ
  pub event : Text
  pub warning : Bool
  pub user_id : Option ℕ
  pub ip : Option Text

-- A file of the GridFS bucket `raw_mails`.
pub record RawMail : Type 0 where
  pub id : ℕ
  pub raw : Text

pub record Database (M : Mongo) : Type 0 where
  pub test_emails : M.Collection TestEmail
  pub mail_events : M.Collection MailEvent
  pub users : M.Collection User
  pub api_keys : M.Collection ApiKey
  pub tokens : M.Collection Token
  pub analyses : M.Collection Analysis
  pub system_logs : M.Collection LogDoc
  pub raw_mails : M.Collection RawMail
