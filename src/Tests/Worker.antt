-- ===== src/Tests/Worker.antt =====
-- Tests of `src/worker` and of the clock.
use mail_tester.Prelude.{◌<◌, ◌≡◌, refl, arith, min, ltb, none, some, [], ◌∷◌, All}
use mail_tester.Time.{get_utc_tomorrow_start}
use mail_tester.Db.Mongo.Memory as MongoMemory
use mail_tester.Worker.Limits.{
  Holder, Scope, consume_daily_quota, get_quota_state, held_state, find_quota, is_due,
}
use mail_tester.Worker.Limits.Quotas.{consume-iff-remaining, granted-consume_all, consume_all}
use mail_tester.Worker.Tasks.Once.{IsSoundWorld}
use mail_tester.Tests.Data.{conf, some_db, some_world}

consume-iff-remaining_example :
    (consume_daily_quota MongoMemory.memory conf (some 7) none none 5 some_db).0
    ≡ ltb 0 (get_quota_state MongoMemory.memory conf (some 7) none none 5 some_db).remaining
consume-iff-remaining_example =
    consume-iff-remaining MongoMemory.memory conf (some 7) none none 5 some_db

before_reset :
    All
      (λ t. t < (held_state MongoMemory.memory conf Scope.user (Holder.user 7) 5 some_db).reset_at)
      (6 ∷ 7 ∷ [])
unfolding held_state find_quota is_due get_utc_tomorrow_start
before_reset = ground arith

-- Three analyses for a user with two left.
granted-consume_all_example :
    (consume_all MongoMemory.memory conf (Holder.user 7) (5 ∷ 6 ∷ 7 ∷ []) some_db).0
    ≡ min 3 (held_state MongoMemory.memory conf Scope.user (Holder.user 7) 5 some_db).remaining
granted-consume_all_example =
    granted-consume_all MongoMemory.memory MongoMemory.memory-IsMongo conf Scope.user
      (Holder.user 7) 5 (6 ∷ 7 ∷ []) some_db refl before_reset

pub some_world-IsSoundWorld : IsSoundWorld some_world
some_world-IsSoundWorld = record {
  unique = λ n. ground arith;
  reported = λ n. ground arith;
  unused = λ k. ground arith;
}
