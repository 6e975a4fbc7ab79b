-- ===== src/Tests/System.antt =====
-- Tests of the program as a whole.
use mail_tester.Prelude.{ℕ, none, some, [], ◌∷◌, Text, codes}
use mail_tester.Db.Mongo.Memory as MongoMemory
use mail_tester.Db.Redis.Memory as RedisMemory
use mail_tester.Exec.{World}
use mail_tester.System.{Reach, here, next, deliver, analyze}
use mail_tester.System.Reports.{Reach-IsSoundWorld}
use mail_tester.Worker.Tasks.Once.{IsSoundWorld}
use mail_tester.Tests.Data.{conf, some_world, services, address}
use mail_tester.Tests.Worker.{some_world-IsSoundWorld}
use mail_tester.Ingest.LmtpServer.{handle_data}
use mail_tester.Worker.Tasks.{analyze_received_mail}
use mail_tester.Tests.Data.{parse}

abbrev Store : Type 0
Store = World MongoMemory.memory RedisMemory.memory

abbrev str_id : ℕ → Text
str_id n = []

abbrev hash_key : Text → Text
hash_key raw_key = raw_key

abbrev delivered : Store
delivered =
    (handle_data parse conf (λ a. none) 5 (some (codes "hi")) none (some address ∷ []) some_world).1

abbrev analysed : Store
analysed = (analyze_received_mail services conf 9 2 delivered).1

-- A delivery, then one task twice.
abbrev run :
    Reach services str_id hash_key conf some_world
      (analyze_received_mail services conf 10 2 analysed).1
run =
    next
      (next
        (next here (deliver (λ a. none) 5 (some (codes "hi")) none (some address ∷ []) some_world))
        (analyze 9 2 delivered))
      (analyze 10 2 analysed)

Reach-IsSoundWorld_example : IsSoundWorld (analyze_received_mail services conf 10 2 analysed).1
Reach-IsSoundWorld_example =
    Reach-IsSoundWorld MongoMemory.memory MongoMemory.memory-IsMongo RedisMemory.memory services
      str_id hash_key conf some_world-IsSoundWorld run
