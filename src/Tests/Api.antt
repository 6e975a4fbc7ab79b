-- ===== src/Tests/Api.antt =====
-- Tests of `src/api`.
use mail_tester.Prelude.{
  ℕ, ◌≡◌, refl, arith, min, Option, none, some, [], ◌∷◌, Text, codes, ◌=ᵗ◌, strip, lstrip, rstrip,
  lower_char,
}
use mail_tester.Db.Mongo.Memory as MongoMemory
use mail_tester.Db.Redis.Memory as RedisMemory
use mail_tester.Db.Mongo.Queries.{count}
use mail_tester.Db.Cache.{address_key}
use mail_tester.Exec.{ok}
use mail_tester.Ingest.RecipientMap.{reject, lookup}
use mail_tester.Db.Documents.{ApiKey}
use mail_tester.Exec.{World, raised, http}
use mail_tester.Api.Requests.{object_id}
use mail_tester.Api.ApiKeys.{
  create_key, find_key, new_key, resolve_api_key, revoke_key, create_counted, insert_key,
  public_key_view, new_document, key_preview, key_name,
}
use mail_tester.Api.ApiKeys.Bounds.{IsWithinKeys, create_key-IsWithinKeys}
use mail_tester.Api.ApiKeys.Created.{create_key-find_key, created}
use mail_tester.Api.ApiKeys.Revoked.{revoke_key-resolve_api_key}
use mail_tester.Api.RateLimit.{enforce, hit}
use mail_tester.Db.Documents.{Analysis, OwnerType}
use mail_tester.Processor.Score.{excellent}
use mail_tester.Api.History.Follow.{follow, follow-reports_of}
use mail_tester.Api.RateLimit.Window.{passed_window, passed}
use mail_tester.Api.MailTests.{is_previous, replace_address}
use mail_tester.Api.MailTests.Generation.{replace_address_one_live, lookup-replace_address}
use mail_tester.Tests.Data.{conf, some_world, address, no_keys}

passed_window_example :
    passed RedisMemory.memory (codes "rl:generate:ip:10.0.0.1") 2 60 (5 ∷ 6 ∷ 7 ∷ []) no_keys
    ≡ min 3 2
passed_window_example =
    passed_window RedisMemory.memory RedisMemory.memory-IsRedis RedisMemory.memory-IsUp
      (codes "rl:generate:ip:10.0.0.1") 2 60 5 (6 ∷ 7 ∷ []) no_keys refl
      (omega arith, (omega arith, tt))

abbrev new_address : Text
new_address = codes "n@mx.test"

abbrev ip : Option Text
ip = some (codes "10.0.0.1")

replace_address_one_live_example :
    ((replace_address conf 9 new_address ip none none some_world).0 ≡ ok tt)
    × (count
          (is_previous 9 none ip)
          (replace_address conf 9 new_address ip none none some_world).1.db.test_emails
        ≡ 1)
replace_address_one_live_example =
    replace_address_one_live MongoMemory.memory MongoMemory.memory-IsMongo RedisMemory.memory
      RedisMemory.memory-IsRedis RedisMemory.memory-IsUp conf 9 new_address ip none none some_world
      (omega arith)

-- The address that the new one replaces.
lookup-replace_address_example :
    lookup RedisMemory.memory 10 address
      (replace_address conf 9 new_address ip none none some_world).1.cache
    ≡ some reject
unfolding ◌=ᵗ◌ lstrip rstrip strip lower_char address_key is_previous
lookup-replace_address_example =
    lookup-replace_address MongoMemory.memory MongoMemory.memory-IsMongo RedisMemory.memory
      RedisMemory.memory-IsRedis RedisMemory.memory-IsUp conf 9 new_address ip none none some_world
      10 address

-- A hash for the tests, which is one to one.
abbrev hash_key : Text → Text
hash_key raw_key = raw_key

abbrev str_id : ℕ → Text
str_id n = []

abbrev token : Text
token = codes "5eed"

some_world-IsWithinKeys : IsWithinKeys conf some_world
some_world-IsWithinKeys user_id = omega arith

create_key-IsWithinKeys_example :
    IsWithinKeys conf (create_key hash_key conf 9 7 none ip token some_world).1
create_key-IsWithinKeys_example =
    create_key-IsWithinKeys MongoMemory.memory MongoMemory.memory-IsMongo RedisMemory.memory conf
      hash_key 9 7 none ip token some_world some_world-IsWithinKeys

create_key-find_key_example :
    find_key hash_key (codes "mt__5eed") (create_key hash_key conf 9 7 none ip token some_world).1
    ≡ some (
        created MongoMemory.memory MongoMemory.memory-IsMongo RedisMemory.memory hash_key conf 9 7
          none ip token some_world
          (codes "mt__5eed"))
unfolding find_key create_key create_counted insert_key new_key enforce hit public_key_view
    new_document key_preview key_name strip lstrip rstrip
create_key-find_key_example =
    create_key-find_key MongoMemory.memory MongoMemory.memory-IsMongo RedisMemory.memory hash_key
      conf 9 7 none ip token some_world refl
      (public_key_view conf (new_document hash_key conf 8 7 9 none (codes "mt__5eed") ip))
      (codes "mt__5eed") refl

-- A world with one key.
abbrev keyed : World MongoMemory.memory RedisMemory.memory
keyed = (insert_key hash_key conf 9 7 none ip token some_world).1

abbrev the_key : ApiKey
the_key = new_document hash_key conf 8 7 9 none (codes "mt__5eed") ip

revoke_key-resolve_api_key_example :
    (resolve_api_key hash_key str_id conf 20
      (some (codes "mt__5eed"))
      (revoke_key 10 7 (object_id 8) ip keyed).1).0
    ≡ raised (http 401 "Invalid API key")
unfolding find_key insert_key new_key public_key_view new_document key_preview key_name strip lstrip
    rstrip revoke_key ◌=ᵗ◌
revoke_key-resolve_api_key_example =
    revoke_key-resolve_api_key MongoMemory.memory MongoMemory.memory-IsMongo RedisMemory.memory
      hash_key str_id conf 10 20 7 8 ip (some (codes "mt__5eed")) the_key keyed refl refl refl
      (omega arith) (omega arith) refl

abbrev report_with : ℕ → Analysis
report_with id = record {
  id = id;
  report = record { score = 1000; title = excellent; items = []; issues = [] };
  to_address = address;
  received_at = 5;
  sender_domain = [];
  sender_ip = none;
  envelope_from = [];
  owner_type = OwnerType.user;
  owner_user_id = some 7;
  owner_ip = none;
  mail_event_id = id;
}

abbrev reported : World MongoMemory.memory RedisMemory.memory
reported = record some_world {
  db = record some_world.db { analyses = report_with 11 ∷ report_with 14 ∷ report_with 12 ∷ [] };
}

-- Three reports in pages of two.
follow-reports_of_example :
    follow 7 2 reported 3 none ≡ report_with 14 ∷ report_with 12 ∷ report_with 11 ∷ []
follow-reports_of_example =
    follow-reports_of MongoMemory.memory MongoMemory.memory-IsMongo RedisMemory.memory 7 1 reported
      ((ground arith, (ground arith, tt)), ((ground arith, tt), (tt, tt))) 3 (omega arith)
