-- ===== src/Tests/Data.antt =====
-- The data of the tests: stores in memory with one user, one address and one mail.
use mail_tester.Prelude.{false, Option, none, some, [], ◌∷◌, Text, codes}
use mail_tester.Config.{Config}
use mail_tester.Db.Redis.{Entry}
use mail_tester.Db.Mongo.Memory as MongoMemory
use mail_tester.Db.Redis.Memory as RedisMemory
use mail_tester.Db.Documents.{TestEmail, MailEvent, User, Database, Status}
use mail_tester.Exec.{World}
use mail_tester.Ingest.Message.{Message, message, no_parts}
use mail_tester.Processor.Score.{excellent}
use mail_tester.Worker.Tasks.{Services, done}

abbrev pub conf : Config
conf = record {
  mail_domain = codes "mx.test";
  message_size_limit = 100;
  test_address_ttl_minutes = 30;
  anon_daily_limit = 5;
  user_daily_limit = 2;
  api_daily_limit = 50;
  generate_rate_limit = 2;
  generate_rate_window = 60;
  auth_rate_limit = 10;
  auth_rate_window = 300;
  password_min_length = 8;
  check_rate_limit = 60;
  check_rate_window = 60;
  read_rate_limit = 120;
  read_rate_window = 60;
  api_key_prefix = codes "mt_";
  api_keys_per_user = 5;
  api_rate_limit = 60;
  api_rate_window = 60;
  history_page_size = 10;
  history_max_page_size = 50;
  token_expire_minutes = 60;
  spam_penalty_cap = 500;
  dnsbl_max_lists = 20;
  uribl_max_domains = 10;
}

abbrev pub address : Text
address = codes "a@mx.test"

abbrev pub old_address : TestEmail
old_address = record {
  id = 1;
  to_address = address;
  status = Status.pending;
  created_at = 0;
  expires_at = some 1800000000;
  created_ip = some (codes "10.0.0.1");
  owner_user_id = none;
  api_key_id = none;
  mail_count = 0;
  receiver_at = none;
  last_mail_event_id = none;
  analysis_id = none;
  analyzed_at = none;
  last_error = none;
}

abbrev pub mail : MailEvent
mail = record {
  id = 2;
  to_address = address;
  mail_from = codes "b@x.test";
  raw_id = 3;
  size = 2;
  received_at = 5;
  connection = none;
  subject = none;
  message_id = none;
  created_ip = some (codes "10.0.0.1");
  owner_user_id = some 7;
  api_key_id = none;
  analysis_started_at = none;
  analysis_id = none;
  analyzed_at = none;
  last_error = none;
}

abbrev pub reader : User
reader = record {
  id = 7;
  email = codes "r@x.test";
  password_hash = none;
  status = none;
  created_at = none;
  last_login_at = none;
  token_expires_at = none;
  register_ip = none;
  quota = none;
}

abbrev pub some_db : Database MongoMemory.memory
some_db = record {
  test_emails = old_address ∷ [];
  mail_events = mail ∷ [];
  users = reader ∷ [];
  api_keys = [];
  tokens = [];
  analyses = [];
  system_logs = [];
  raw_mails = record { id = 3; raw = codes "hi" } ∷ [];
}

abbrev pub no_keys : Text → Option Entry
no_keys key = none

abbrev pub some_world : World MongoMemory.memory RedisMemory.memory
some_world = record { db = some_db; cache = no_keys; next_id = 8; queue = 2 ∷ [] }

abbrev pub no_message : Message
no_message =
    message
      (record {
        headers = (codes "From", codes "b@x.test") ∷ [];
        is_multipart = false;
        maintype = codes "text";
        content_type = codes "text/plain";
        filename = none;
        payload = none;
        decoded = none;
      })
      no_parts

abbrev pub parse : Text → Message
parse raw = no_message

abbrev pub services : Services
services = record {
  parse = parse;
  parse_address = λ s. s;
  sender_ip_of = λ m. done none;
  analyze = λ m domain ip raw connection from.
      done (record { score = 1000; title = excellent; items = []; issues = [] });
  insert_error = λ raw report. none;
}
