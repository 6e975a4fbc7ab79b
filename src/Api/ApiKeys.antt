-- ===== src/Api/ApiKeys.antt =====
-- `src/api/api_keys.py` and `system_log` of `src/api/functions.py`. `hash_key` is `hashlib.sha256`, a
-- parameter, the key that `secrets` gives is an argument, and `user_id` is that of the token. An update
-- that matched is one that the driver counts.
pub mod Bounds
pub mod Revoked
pub mod Created
use mail_tester.Prelude.{
  ℕ, zero, suc, ◌+◌, Bool, true, false, ◌&&◌, not, Option, none, some, ◌++◌, ◌∷◌, Text, codes, take,
  length, strip, is_space, null, leb, ◌==◌, ◌=ᵗ◌, is_some, or_default, if◌then◌else◌,
}
use mail_tester.Config.{Config}
use mail_tester.Time.{DateValue, Datetime, naive, utc_tomorrow_start}
use mail_tester.Db.Mongo.{Mongo}
use mail_tester.Db.Redis.{Redis}
use mail_tester.Db.Cache.{text_or_empty}
use mail_tester.Db.Documents.{ApiKey, Quota, LogDoc}
use mail_tester.Exec.{World, Exec, ok, raised, http, pure, raise, gets, modify, ◌>>=◌, ◌>>◌}
use mail_tester.Api.RateLimit.{enforce}
use mail_tester.Api.Requests.{IdText, object_id, invalid}

unfoldable pub new_key : Config → Text → Text
new_key c token = c.api_key_prefix ++ (b'_' ∷ token)

unfoldable pub key_preview : Config → Text → Text
key_preview c raw_key = take (length c.api_key_prefix + 1 + 8) raw_key

abbrev pub is_active : ApiKey → Bool
is_active k = not (is_some k.revoked_at)

-- The queries of the handlers.
abbrev pub is_active_of : ℕ → ApiKey → Bool
is_active_of user_id k = k.user_id == user_id && is_active k

abbrev pub has_hash : Text → ApiKey → Bool
has_hash h k = (k.key_hash =ᵗ h) && is_active k

abbrev pub has_key_id : ℕ → ApiKey → Bool
has_key_id id k = k.id == id

abbrev pub is_own : ℕ → ℕ → ApiKey → Bool
is_own id user_id k = k.id == id && is_active_of user_id k

pub record KeyView : Type 0 where
  pub id : ℕ
  pub name : Text
  pub preview : Text
  pub created_at : ℕ
  pub last_used_at : Option ℕ
  pub daily_limit : ℕ
  pub daily_used : ℕ
  pub reset_at : Option DateValue

abbrev limit_of : ℕ → Option Quota → ℕ
limit_of default none = default
limit_of default (some q) = or_default q.daily_limit default

abbrev used_of : Option Quota → ℕ
used_of none = 0
used_of (some q) = or_default q.daily_used 0

abbrev reset_of : Option Quota → Option DateValue
reset_of none = none
reset_of (some q) = some q.reset_at

unfoldable pub public_key_view : Config → ApiKey → KeyView
public_key_view c k = record {
  id = k.id;
  name = k.name;
  preview = k.preview;
  created_at = k.created_at;
  last_used_at = k.last_used_at;
  daily_limit = limit_of c.api_daily_limit k.quota;
  daily_used = used_of k.quota;
  reset_at = reset_of k.quota;
}

-- `(info.name or "").strip()[:60] or "default"`
unfoldable pub key_name : Option Text → Text
key_name name =
    let short = take 60 (strip is_space (text_or_empty name)) in
    if null short then codes "default" else short

-- Its `updated_at` is never read.
unfoldable pub new_document :
    (Text → Text) → Config → ℕ → ℕ → ℕ → Option Text → Text → Option Text → ApiKey
unfolding key_preview key_name
new_document hash_key c id user_id now name raw_key ip = record {
  id = id;
  user_id = user_id;
  name = key_name name;
  key_hash = hash_key raw_key;
  preview = key_preview c raw_key;
  created_at = now;
  last_used_at = none;
  revoked_at = none;
  created_ip = ip;
  quota = some (record {
    daily_limit = some c.api_daily_limit;
    daily_used = some 0;
    reset_at = DateValue.date (naive (utc_tomorrow_start now));
  });
}

module _ {M : Mongo} {R : Redis} where
  abbrev pub system_log : ℕ → Text → ℕ → Option Text → Exec (World M R) (Unit {0})
  system_log now event user_id ip = modify λ w. record w {
    db = record w.db {
      system_logs =
          M.insert_one
            (record {
              timestamp = now;
              event = event;
              warning = false;
              user_id = some user_id;
              ip = ip;
            })
            w.db.system_logs;
    };
  }

  -- The first half of `resolve_api_key`: the document of the key in the header.
  unfoldable pub find_key : (Text → Text) → Text → World M R → Option ApiKey
  find_key hash_key raw_key w = M.find_one (has_hash (hash_key raw_key)) w.db.api_keys

  abbrev set_last_used : ℕ → ℕ → World M R → World M R
  set_last_used now id w = record w {
    db = record w.db {
      api_keys =
          (M.update_one (has_key_id id) (λ (k : ApiKey). record k { last_used_at = some now })
            w.db.api_keys).0;
    };
  }

  module _ (hash_key : Text → Text) (str_id : ℕ → Text) (c : Config) where
    -- What follows the lookup.
    abbrev pub admit : ℕ → Option ApiKey → Exec (World M R) (Option ApiKey)
    admit now none = raise (http 401 "Invalid API key")
    admit now (some key) = do
      enforce now (codes "api_key") (some (str_id key.id)) c.api_rate_limit c.api_rate_window
      modify (set_last_used now key.id)
      pure (some key)

    unfoldable pub resolve_api_key : ℕ → Option Text → Exec (World M R) (Option ApiKey)
    unfolding find_key enforce
    resolve_api_key now header w =
        let raw_key = strip is_space (text_or_empty header) in
        if null raw_key then (ok none, w) else admit now (find_key hash_key raw_key w) w

  module _ (hash_key : Text → Text) (c : Config) where
    -- What follows the count of the active keys; `token` is the random text of the key.
    unfoldable pub insert_key :
        ℕ → ℕ → Option Text → Option Text → Text → Exec (World M R) (KeyView × Text)
    unfolding new_document new_key public_key_view
    insert_key now user_id name ip token w =
        let raw_key = new_key c token in
        let document = new_document hash_key c w.next_id user_id now name raw_key ip in
        (system_log now (codes "api_key.created") user_id ip
            >> pure (public_key_view c document, raw_key))
          (record w {
            next_id = suc w.next_id;
            db = record w.db { api_keys = M.insert_one document w.db.api_keys };
          })

    -- After the rate limit.
    unfoldable pub create_counted :
        ℕ → ℕ → Option Text → Option Text → Text → Exec (World M R) (KeyView × Text)
    unfolding insert_key
    create_counted now user_id name ip token = do
      active ← gets (λ w. M.count_documents (is_active_of user_id) w.db.api_keys)
      if leb c.api_keys_per_user active
          then raise (http 400 "You can have at most API_KEYS_PER_USER active keys")
          else insert_key now user_id name ip token

    unfoldable pub create_key :
        ℕ → ℕ → Option Text → Option Text → Text → Exec (World M R) (KeyView × Text)
    unfolding enforce create_counted
    create_key now user_id name ip token =
        enforce now (codes "keys_create") ip c.auth_rate_limit c.auth_rate_window
        >> create_counted now user_id name ip token

  -- The end of `revoke_key`.
  abbrev pub report_revoked : ℕ → ℕ → Option Text → ℕ → Exec (World M R) Bool
  report_revoked now user_id ip zero = raise (http 404 "Key not found")
  report_revoked now user_id ip (suc n) =
      system_log now (codes "api_key.revoked") user_id ip >> pure true

  unfoldable pub revoke_key : ℕ → ℕ → IdText → Option Text → Exec (World M R) Bool
  revoke_key now user_id invalid ip w = (raised (http 400 "Invalid key id"), w)
  revoke_key now user_id (object_id id) ip w =
      let (keys, matched) =
        M.update_one (is_own id user_id) (λ (k : ApiKey). record k { revoked_at = some now })
          w.db.api_keys in
      report_revoked now user_id ip matched (record w { db = record w.db { api_keys = keys } })
