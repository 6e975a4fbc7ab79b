-- ===== src/Tests/Tasks.antt =====
-- Tests of `src/worker/tasks.py`: what a task comes to.
use mail_tester.Prelude.{
  ◌≡◌, refl, arith, true, false, none, some, [], ◌∷◌, codes, has_char, ◌=ᵗ◌, lower_char, strip,
  after_last,
}
use mail_tester.Time.{Datetime, DateValue, ensure_utc_aware}
use mail_tester.Db.Mongo.Memory as MongoMemory
use mail_tester.Db.Redis.Memory as RedisMemory
use mail_tester.Exec.{World}
use mail_tester.Processor.Score.{excellent}
use mail_tester.Worker.Limits.{
  claim_mail_event, consume_daily_quota, consume_held, find_quota, update_quota, is_due,
  quota_holder,
}
use mail_tester.Worker.Tasks.{analyze_received_mail, attempt, get_sender_domain, process, release}
use mail_tester.Worker.Tasks.Outcome.{outcome, outcome_of, reported, IsAfter}
use mail_tester.Worker.Tasks.Outcome.After.{analyze_received_mail-IsAfter}
use mail_tester.Worker.Tasks.Outcome.Again.{analyze_received_mail_again, stopped}
use mail_tester.Tests.Data.{conf, some_db, some_world, services, mail, reader}

-- A task that goes through.
analyze_received_mail-IsAfter_example :
    IsAfter 9 2
      (outcome services conf 9 2 some_world)
      some_world
      (analyze_received_mail services conf 9 2 some_world)
analyze_received_mail-IsAfter_example =
    analyze_received_mail-IsAfter MongoMemory.memory MongoMemory.memory-IsMongo RedisMemory.memory
      services conf 9 2 some_world (omega arith)

-- It is a report, with the score of the analysis.
first_report :
    outcome services conf 9 2 some_world
    ≡ reported mail
        (record { score = 1000; title = excellent; items = []; issues = [] })
        (codes "x.test")
        none
unfolding consume_daily_quota consume_held find_quota update_quota is_due get_sender_domain has_char
    ◌=ᵗ◌ lower_char strip after_last
first_report = refl

-- A user who has used up the day's quota.
abbrev spent_world : World MongoMemory.memory RedisMemory.memory
spent_world = record some_world {
  db = record some_db {
    users =
        record reader {
          quota = some (record {
            analyze = some (record {
              daily_limit = some 1;
              daily_used = some 1;
              reset_at = DateValue.date (Datetime.aware 50);
            });
          });
        }
        ∷ [];
  };
}

spent :
    (consume_daily_quota MongoMemory.memory conf (some 7) mail.created_ip none 9 spent_world.db).0
    ≡ false
unfolding consume_daily_quota consume_held find_quota update_quota is_due ensure_utc_aware
    quota_holder
spent = refl

-- After the reset there is quota again.
due :
    (consume_daily_quota MongoMemory.memory conf
      (some 7)
      mail.created_ip
      none
      60
      (analyze_received_mail services conf 9 2 spent_world).1.db).0
    ≡ true
unfolding analyze_received_mail process release claim_mail_event consume_daily_quota consume_held
    find_quota update_quota is_due ensure_utc_aware quota_holder
due = refl

analyze_received_mail_again_example :
    IsAfter 60 2
      (outcome_of (stopped mail) (attempt services conf mail spent_world))
      (analyze_received_mail services conf 9 2 spent_world).1
      (analyze_received_mail services conf 60 2
        (analyze_received_mail services conf 9 2 spent_world).1)
analyze_received_mail_again_example =
    analyze_received_mail_again MongoMemory.memory MongoMemory.memory-IsMongo RedisMemory.memory
      services conf 9 60 2 mail spent_world (omega arith) refl refl spent due
