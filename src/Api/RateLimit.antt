-- ===== src/Api/RateLimit.antt =====
-- `src/api/rate_limit.py`. The key is the text that the f-string makes of scope and identity.
pub mod Window
pub mod Limiter
pub mod Progress
use mail_tester.Prelude.{
  ℕ, Bool, true, false, Option, none, some, ◌++◌, Text, codes, leb, ◌==◌, ◌||◌, is_some, not,
  or_default, if◌then◌else◌,
}
use mail_tester.Db.Mongo.{Mongo}
use mail_tester.Db.Redis.{Redis}
use mail_tester.Exec.{World, Exec, Result, ok, raised, too_many_requests, pure, raise, ◌>>=◌}

pub record Hit : Type 0 where
  pub allowed : Bool
  pub used : ℕ
  pub limit : ℕ
  pub retry_after : ℕ

abbrev colon : Text
colon = codes ":"

-- `str(identity)`: an absent identity is printed as `None`.
abbrev identity_text : Option Text → Text
identity_text none = codes "None"
identity_text (some t) = t

unfoldable pub rate_key : Text → Option Text → Text
rate_key scope identity = codes "mailtester:rate:" ++ (scope ++ (colon ++ identity_text identity))

module _ (R : Redis) where
  -- A failed EXPIRE is passed over.
  abbrev arm : ℕ → Text → ℕ → R.State → R.State
  arm now key window s = or_default (R.expire now key window s) s

  unfoldable pub hit : ℕ → Text → ℕ → ℕ → R.State → Hit × R.State
  hit now key limit window s = elim (R.incr_ttl now key s) [
    | none ↦ (record { allowed = true; used = 0; limit = limit; retry_after = 0 }, s)
    | some (used, ttl, t) ↦
        let fresh = used == 1 || not (is_some ttl) in
        (
          record {
            allowed = leb used limit;
            used = used;
            limit = limit;
            retry_after = if fresh then window else or_default ttl window;
          },
          if fresh then arm now key window t else t,
        )
  ]

module _ {M : Mongo} {R : Redis} where
  unfoldable pub enforce : ℕ → Text → Option Text → ℕ → ℕ → Exec (World M R) (Unit {0})
  unfolding hit
  enforce now scope identity limit window w =
      let (result, s) = hit R now (rate_key scope identity) limit window w.cache in
      (
        if result.allowed then ok tt else raised (too_many_requests result.retry_after),
        record w { cache = s },
      )
