-- ===== src/System.antt =====
-- The program as a whole: the deliveries, the tasks, and the requests for accounts, addresses, results,
-- keys and the history, in any order, on one state.
pub mod Accounts
pub mod Mails
pub mod Reports
pub mod Sessions
use mail_tester.Prelude.{ℕ, ℤ, Bool, Option, List, Text}
use mail_tester.Config.{Config}
use mail_tester.Db.Mongo.{Mongo}
use mail_tester.Db.Redis.{Redis}
use mail_tester.Exec.{World}
use mail_tester.Ingest.LmtpServer.{Fault, handle_data}
use mail_tester.Worker.Tasks.{Services, analyze_received_mail}
use mail_tester.Api.Requests.{CurrentUser, IdText}
use mail_tester.Api.ApiKeys as ApiKeys
use mail_tester.Api.ApiKeys.{resolve_api_key}
use mail_tester.Db.Documents.{Token}
use mail_tester.Api.Tokens as Tokens
use mail_tester.Api.Tokens.{Jwt}
use mail_tester.Api.Auth as Auth
use mail_tester.Api.Auth.{Passwords}
use mail_tester.Api.History.{list_history, get_report}
use mail_tester.Api.MailTests.{generate_random, check_address, get_result}

-- One call of an entry point. Each takes effect as a whole.
pub data Step {M : Mongo} {R : Redis} (V : Services) (str_id : ℕ → Text) (hash_key : Text → Text)
    (c : Config) : World M R → World M R → Type 0 where
  deliver :
      (faults : Text → Option Fault) (now : ℕ) (content mail_from : Option Text)
      (rcpts : List (Option Text)) (w : World M R)
      → Step V str_id hash_key c w (handle_data V.parse c faults now content mail_from rcpts w).1
  analyze :
      (now mail_event_id : ℕ) (w : World M R)
      → Step V str_id hash_key c w (analyze_received_mail V c now mail_event_id w).1
  generate :
      (now : ℕ) (to_address : Text) (ip : Option Text) (u : Option CurrentUser) (w : World M R)
      → Step V str_id hash_key c w (generate_random str_id c now to_address ip u w).1
  check :
      (now : ℕ) (to_address : Text) (after : Option IdText) (ip : Option Text) (w : World M R)
      → Step V str_id hash_key c w (check_address c now to_address after ip w).1
  result :
      (now : ℕ) (to_address : Text) (ip : Option Text) (w : World M R)
      → Step V str_id hash_key c w (get_result c now to_address ip w).1
  check_key :
      (now : ℕ) (header : Option Text) (w : World M R)
      → Step V str_id hash_key c w (resolve_api_key hash_key str_id c now header w).1
  create_key :
      (now user_id : ℕ) (name ip : Option Text) (token : Text) (w : World M R)
      → Step V str_id hash_key c w (ApiKeys.create_key hash_key c now user_id name ip token w).1
  revoke_key :
      (now user_id : ℕ) (id : IdText) (ip : Option Text) (w : World M R)
      → Step V str_id hash_key c w (ApiKeys.revoke_key now user_id id ip w).1
  history :
      (now : ℕ) (limit : ℤ) (before : Option IdText) (u : Option CurrentUser) (w : World M R)
      → Step V str_id hash_key c w (list_history str_id c now limit before u w).1
  report :
      (now : ℕ) (id : IdText) (u : Option CurrentUser) (w : World M R)
      → Step V str_id hash_key c w (get_report str_id c now id u w).1
  register :
      (P : Passwords) (now : ℕ) (email password ip : Option Text) (w : World M R)
      → Step V str_id hash_key c w (Auth.register P c now email password ip w).1
  login :
      (P : Passwords) (J : Jwt) (now : ℕ) (username : Option Text) (password : Text)
      (ip : Option Text) (w : World M R)
      → Step V str_id hash_key c w (Auth.login P J c now username password ip w).1
  logout :
      (now : ℕ) (t : Token) (ip : Option Text) (w : World M R)
      → Step V str_id hash_key c w (Tokens.logout now t ip w).1

pub data Reach {M : Mongo} {R : Redis} (V : Services) (str_id : ℕ → Text) (hash_key : Text → Text)
    (c : Config) (w : World M R) : World M R → Type 0 where
  here : Reach V str_id hash_key c w w
  next :
      {u v : World M R}
      → Reach V str_id hash_key c w u
      → Step V str_id hash_key c u v
      → Reach V str_id hash_key c w v
