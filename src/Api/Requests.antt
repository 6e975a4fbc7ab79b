-- ===== src/Api/Requests.antt =====
-- What a handler of `src/api` is called with, and the calls of Redis as actions that may raise.
use mail_tester.Prelude.{ℕ, Option, none, some, Text, codes}
use mail_tester.Db.Mongo.{Mongo}
use mail_tester.Db.Redis.{Redis}
use mail_tester.Exec.{World, Exec, ok, raised, exception}

-- The user of a request, as `optional_current_user` gives it.
pub record CurrentUser : Type 0 where
  pub user_id : ℕ
  pub api_key_id : Option ℕ

-- An id in a path or a query, as `ObjectId` reads it.
pub data IdText : Type 0 where
  object_id : ℕ → IdText
  invalid : IdText

module _ {M : Mongo} {R : Redis} where
  abbrev pub from_cache : Option R.State → Exec (World M R) (Unit {0})
  from_cache none w = (raised (exception (codes "RedisError")), w)
  from_cache (some s) w = (ok tt, record w { cache = s })

  abbrev pub cache_delete : Text → Exec (World M R) (Unit {0})
  cache_delete key w = from_cache (R.delete key w.cache) w

  abbrev pub cache_set : ℕ → Text → ℕ → Exec (World M R) (Unit {0})
  cache_set now key ex w = from_cache (R.set_ex now key ex w.cache) w
